-- ===== src/Execution/Remote/Retries.antt =====
-- server/src/execution/remote_strategy.cpp: the attempts to dispatch a task, each to a worker that
-- the registry picks.
use task_hub.Execution.Context.{ExecutionContext, TextCalls, failed_with}
use task_hub.Execution.DagBody.{extract_dag_body, body, failed}
use task_hub.Execution.Remote.{
  Output, event, base_remote_fields, worker_fields, emit_dispatch_end_with_message,
  pre_dispatch_abort, read_dispatch_max_retries,
}
use task_hub.Execution.Remote.Dispatch.{Call, dispatch_once}
use task_hub.Json.{Fields, JsonCalls}
use task_hub.Log.Buffer.{info, error}
use task_hub.Runner.ResultJson.{status_to_int}
use task_hub.Runner.Task.{TaskConfig, TaskResult, TaskStatus, default_result}
use task_hub.Worker.Registry.{mark_dispatch_failure}
use task_hub.Worker.Selector.{Workers, Cursors}
use task_hub.Worker.Strategy.{Strategy, pick_worker_for_queue}
use task_hub.Prelude.{
  ℕ, zero, suc, ℤ, pos, Text, text, ◌++◌, ◌==◌, Bool, Option, none, some, List, [], ◌∷◌, put,
  Text-Eq, is_empty, not, if◌then◌else◌, ◌||◌,
}

-- What one attempt meets: the readings before it, what other threads have done to the registry, the
-- time of the pick, the call, and the time of the mark.
pub record Meeting : Type 0 where
  pub is_canceled : Bool
  pub checked_at : ℕ
  pub others : Workers → Workers
  pub picked_at : ℕ
  pub call : Call
  pub marked_at : ℕ

-- A retry goes on with the registry as it is then. `none` is an exception of `dispatch_once`.
pub data Attempted : Type 0 where
  stopped : Option TaskResult → Workers → Cursors → List Output → Attempted
  again : TaskResult → Workers → Cursors → List Output → Attempted

-- The end of `execute`, and the number of attempts that it began.
pub record Dispatched : Type 0 where
  pub result : Option TaskResult
  pub workers : Workers
  pub cursors : Cursors
  pub outputs : List Output
  pub made : ℕ

abbrev pub dispatch_cooldown_ms : ℕ
dispatch_cooldown_ms = 5000

unfoldable pub queue_of : TaskConfig → Text
queue_of cfg = if is_empty cfg.queue then text "default" else cfg.queue

module _ (t : TextCalls) (c : JsonCalls) (strategy : Strategy) (ctx : ExecutionContext) where
  abbrev pub queue : Text
  queue = queue_of ctx.config

  unfoldable pub no_worker : TaskResult → TaskResult × List Output
  no_worker last =
      let r = record last {
        status = TaskStatus.failed;
        message = text "RemoteExecution: no available worker for queue=" ++ queue;
      } in
      (
        r,
        emit_dispatch_end_with_message error (text "RemoteExecution: dispatch end (no worker)")
            r.duration_ms r.attempt
            (put (text "status") (t.to_string (status_to_int r.status))
              (base_remote_fields t ctx.config queue [] [] (pos 0)))
            r.message,
      )

  -- One round of the loop; `is_last` is `attempt == maxAttempts`.
  unfoldable pub attempt_once : Meeting → Bool → Fields → TaskResult → Workers → Cursors → Attempted
  attempt_once m is_last payload last before cs =
      let ws = m.others before in
      elim (pre_dispatch_abort m.is_canceled m.checked_at ctx) [
        | some r ↦ stopped (some r) ws cs []
        | none ↦
            let (picked, cs') = pick_worker_for_queue strategy m.picked_at ws queue cs in
            elim picked [
              | none ↦ let (r, outs) = no_worker last in stopped (some r) ws cs' outs
              | some w ↦
                  let chosen =
                    event info (text "RemoteExecution: picked worker") last.duration_ms last.attempt
                      (worker_fields t ctx.config queue w) in
                  elim (dispatch_once t c ctx queue w m.call payload) [
                    | none ↦ stopped none ws cs' (chosen ∷ [])
                    | some (a, outs) ↦
                        let ws' =
                          if a.retryable
                          then mark_dispatch_failure m.marked_at w.id dispatch_cooldown_ms ws
                          else ws in
                        if not a.retryable || is_last
                        then stopped (some a.result) ws' cs' (chosen ∷ outs)
                        else again a.result ws' cs' (chosen ∷ outs)
                  ]
            ]
      ]

  module _ (world : ℕ → Meeting) (payload : Fields) where
    -- With so many attempts left, after `n` of them.
    unfoldable pub dispatch_attempts :
        ℕ → ℕ → TaskResult → Workers → Cursors → List Output → Dispatched
    dispatch_attempts zero n last ws cs outs = record {
      result = some last;
      workers = ws;
      cursors = cs;
      outputs = outs;
      made = n;
    }
    dispatch_attempts (suc left) n last ws cs outs =
        elim (attempt_once (world n) (left == 0) payload last ws cs) [
          | stopped r ws' cs' more ↦ record {
            result = r;
            workers = ws';
            cursors = cs';
            outputs = outs ++ more;
            made = suc n;
          }
          | again r ws' cs' more ↦ dispatch_attempts left (suc n) r ws' cs' (outs ++ more)
        ]

  -- `max_retries` is the configured number, and the first readings are the flag's and the clock's.
  unfoldable pub execute : (ℕ → Meeting) → ℤ → Bool → ℕ → Workers → Cursors → Dispatched
  execute world max_retries is_canceled now ws cs =
      let ended : Option TaskResult → List Output → Dispatched =
        λ r outs. record { result = r; workers = ws; cursors = cs; outputs = outs; made = 0 } in
      elim (pre_dispatch_abort is_canceled now ctx) [
        | some r ↦ ended (some r) []
        | none ↦
            let start =
              event info (text "RemoteExecution: dispatch start") (pos 0) (pos 1)
                (base_remote_fields t ctx.config queue [] [] (pos 0)) in
            elim (extract_dag_body t ctx.config) [
              | failed e ↦ ended (some (failed_with (text "RemoteExecution: " ++ e))) (start ∷ [])
              | body payload ↦
                  dispatch_attempts world payload (suc (read_dispatch_max_retries max_retries)) 0
                    default_result ws cs (start ∷ [])
            ]
      ]
