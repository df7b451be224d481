-- ===== src/Execution/Remote/Outcome.antt =====
-- server/src/execution/remote_strategy.cpp: how the attempts of a dispatch end.

use task_hub.Log.Buffer.{info}
use task_hub.Execution.DagBody.{extract_dag_body, body, Extracted, failed}
use task_hub.Execution.Context.{ExecutionContext, TextCalls}
use task_hub.Execution.Remote.{
  Output, pre_dispatch_abort, read_dispatch_max_retries, event, base_remote_fields,
}
use task_hub.Execution.Remote.Classify.{
  IsAck, answer_of, dispatch_once-IsAck, dispatch_once-worker_id,
}
use task_hub.Execution.Remote.Dispatch.{dispatch_once}
use task_hub.Execution.Remote.Retries.{
  Meeting, Attempted, stopped, again, Dispatched, attempt_once, dispatch_attempts, execute, queue,
  dispatch_cooldown_ms, no_worker,
}
use task_hub.Json.{Fields, JsonCalls}
use task_hub.Runner.Task.{TaskResult, is_ok, default_result}
use task_hub.Worker.Registry.{mark_dispatch_failure}
use task_hub.Worker.Selector.{WorkerInfo, Workers, Cursors}
use task_hub.Worker.Strategy.{Strategy, pick_worker_for_queue}
use task_hub.Prelude.{
  ℕ, zero, suc, ℤ, pos, Text, Bool, true, false, Option, some, List, ◌≡◌, ◌≤◌, ◌<◌, ◌+◌, arith,
  Option-cases, inl, inr, ◌⊎◌, refl, ◌==◌, ◌++◌, text, [], ◌∷◌, Text-Eq,
}

module _ (t : TextCalls) (c : JsonCalls) (strategy : Strategy) (ctx : ExecutionContext) where
  -- What a round of the loop that is tried again has done: its worker was picked, its dispatch asks
  -- for another one, and the worker is marked.
  pub record Retried (m : Meeting) (payload : Fields) (before : Workers) (cs : Cursors)
      (r : TaskResult) (after : Workers) : Type 0 where
    pub worker : WorkerInfo
    pub picked :
        (pick_worker_for_queue strategy m.picked_at (m.others before) (queue t c strategy ctx) cs).0
        ≡ some worker
    pub marked :
        after ≡ mark_dispatch_failure m.marked_at worker.id dispatch_cooldown_ms (m.others before)

  pub attempt_once-Retried :
      (m : Meeting) (is_last : Bool) (payload : Fields) (last r : TaskResult)
      (before after : Workers) (cs cs' : Cursors) (outs : List Output)
      → attempt_once t c strategy ctx m is_last payload last before cs ≡ again r after cs' outs
      → (is_last ≡ false) × Retried m payload before cs r after
  unfolding attempt_once
  attempt_once-Retried m is_last payload last r before after cs cs' outs e =
      let q = queue t c strategy ctx in
      let pick = pick_worker_for_queue strategy m.picked_at (m.others before) q cs in
      elim (Option-cases (pre_dispatch_abort m.is_canceled m.checked_at ctx)) [
        | inr (res, n) ↦ ground (arith, n)
        | inl n ↦ elim (Option-cases pick.0) [
          | inl o ↦ ground (arith, n, o)
          | inr (w, o) ↦ elim (Option-cases (dispatch_once t c ctx q w m.call payload)) [
            | inl d ↦ ground (arith, n, o, d)
            | inr ((a, more), d) ↦
                let facts : (is_last ≡ false)
                    × (after
                        ≡ mark_dispatch_failure m.marked_at w.id dispatch_cooldown_ms
                            (m.others before)) =
                  ground (arith, n, o, d) in
                (facts.0, record { worker = w; picked = o; marked = facts.1 })
          ]
        ]
      ]

  -- An acknowledgement of the worker that a result names, in the call of some round.
  abbrev pub Acked : (ℕ → Meeting) → Fields → ℕ → TaskResult → Type 0
  Acked world payload made r =
      (i : ℕ) × (w : WorkerInfo) × (i < made)
      × (r.worker_id ≡ w.id)
      × IsAck t c (answer_of t c ctx (queue t c strategy ctx) w (world i).call payload)

  stopped-IsAck :
      (m : Meeting) (is_last : Bool) (payload : Fields) (last r : TaskResult)
      (before after : Workers) (cs cs' : Cursors) (outs : List Output)
      → attempt_once t c strategy ctx m is_last payload last before cs
        ≡ stopped (some r) after cs' outs
      → is_ok r.status ≡ true
      → (w : WorkerInfo) × (r.worker_id ≡ w.id)
        × IsAck t c (answer_of t c ctx (queue t c strategy ctx) w m.call payload)
  unfolding attempt_once no_worker pre_dispatch_abort
  stopped-IsAck m is_last payload last r before after cs cs' outs e ok =
      let q = queue t c strategy ctx in
      let pick = pick_worker_for_queue strategy m.picked_at (m.others before) q cs in
      elim (Option-cases (pre_dispatch_abort m.is_canceled m.checked_at ctx)) [
        | inr (res, n) ↦ ground (arith, n)
        | inl n ↦ elim (Option-cases pick.0) [
          | inl o ↦ ground (arith, n, o)
          | inr (w, o) ↦ elim (Option-cases (dispatch_once t c ctx q w m.call payload)) [
            | inl d ↦ ground (arith, n, o, d)
            | inr ((a, more), d) ↦
                let same : a.result ≡ r = ground (arith, n, o, d) in
                let good : is_ok a.result.status ≡ true = ground (arith, same) in
                let named = dispatch_once-worker_id t c ctx q w m.call payload a more d in
                (
                  w,
                  ground (arith, same, named),
                  ((dispatch_once-IsAck t c ctx q w m.call payload a more d).0 good).1,
                )
          ]
        ]
      ]

  -- How `left` rounds after `n` of them, and one more, end.
  record Ended (world : ℕ → Meeting) (payload : Fields) (left n : ℕ) (o : Dispatched) : Type 0 where
    begun : n < o.made
    at_most : o.made ≤ suc (n + left)
    acked :
        (r : TaskResult) → o.result ≡ some r → is_ok r.status ≡ true → Acked world payload o.made r

  Extracted-cases : (x : Extracted) → ((e : Text) × (x ≡ failed e)) ⊎ ((b : Fields) × (x ≡ body b))
  Extracted-cases (failed e) = inl (e, refl)
  Extracted-cases (body b) = inr (b, refl)

  Attempted-cases :
      (a : Attempted)
      → ((r : Option TaskResult) × (ws : Workers) × (cs : Cursors) × (outs : List Output) × (a
            ≡ stopped r ws cs outs))
        ⊎ ((r : TaskResult) × (ws : Workers) × (cs : Cursors) × (outs : List Output) × (a
              ≡ again r ws cs outs))
  Attempted-cases (stopped r ws cs outs) = inl (r, ws, cs, outs, refl)
  Attempted-cases (again r ws cs outs) = inr (r, ws, cs, outs, refl)

  stopped-Ended :
      (world : ℕ → Meeting) (payload : Fields) (left n : ℕ) (last : TaskResult) (before : Workers)
      (cs : Cursors) (r : Option TaskResult) (ws : Workers) (cs' : Cursors)
      (outs more : List Output)
      → attempt_once t c strategy ctx (world n) (left == 0) payload last before cs
        ≡ stopped r ws cs' more
      → Ended world payload left n
          (record { result = r; workers = ws; cursors = cs'; outputs = outs; made = suc n })
  stopped-Ended world payload left n last before cs r ws cs' outs more e = record {
    begun = omega arith;
    at_most = omega arith;
    acked = λ (s : TaskResult) (same : r ≡ some s) (ok : is_ok s.status ≡ true).
        let (w, named, ack) =
          stopped-IsAck (world n) (left == 0) payload last s before ws cs cs' more (rw (← same) e)
            ok in
        (n, w, omega arith, named, ack);
  }

  dispatch_attempts-Ended :
      (world : ℕ → Meeting) (payload : Fields) (left n : ℕ) (last : TaskResult) (ws : Workers)
      (cs : Cursors) (outs : List Output)
      → Ended world payload left n
          (dispatch_attempts t c strategy ctx world payload (suc left) n last ws cs outs)
  unfolding dispatch_attempts
  dispatch_attempts-Ended world payload zero n last ws cs outs =
      elim (Attempted-cases (attempt_once t c strategy ctx (world n) true payload last ws cs)) [
        | inl (r, ws', cs', more, e) ↦
            rw (e, dispatch_attempts)
              (stopped-Ended world payload 0 n last ws cs r ws' cs' (outs ++ more) more e)
        | inr (r, ws', cs', more, e) ↦
            ground
              (arith, (attempt_once-Retried (world n) true payload last r ws ws' cs cs' more e).0)
      ]
  dispatch_attempts-Ended world payload (suc left) n last ws cs outs =
      elim (Attempted-cases
        (attempt_once t c strategy ctx (world n) (suc left == 0) payload last ws cs)) [
          | inl (r, ws', cs', more, e) ↦
              rw (e, dispatch_attempts)
                (stopped-Ended world payload (suc left) n last ws cs r ws' cs' (outs ++ more) more
                  e)
          | inr (r, ws', cs', more, e) ↦
              let later =
                dispatch_attempts-Ended world payload left (suc n) r ws' cs' (outs ++ more) in
              rw (e, dispatch_attempts)
                (record {
                  begun = omega (arith, later.begun);
                  at_most = omega (arith, later.at_most);
                  acked = later.acked;
                })
        ]

  -- How a dispatch ends.
  execute-Ended :
      (world : ℕ → Meeting) (max_retries : ℤ) (is_canceled : Bool) (now : ℕ) (ws : Workers)
      (cs : Cursors)
      → let o = execute t c strategy ctx world max_retries is_canceled now ws cs in
        (o.made ≤ suc (read_dispatch_max_retries max_retries))
        × ((r : TaskResult)
            → o.result ≡ some r
            → is_ok r.status ≡ true
            → (payload : Fields) × (extract_dag_body t ctx.config ≡ body payload)
              × Acked world payload o.made r)
  unfolding execute pre_dispatch_abort
  execute-Ended world max_retries is_canceled now ws cs =
      elim (Option-cases (pre_dispatch_abort is_canceled now ctx)) [
        | inr (r, n) ↦ (ground (arith, n), λ s e ok. ground (arith, n))
        | inl n ↦ elim (Extracted-cases (extract_dag_body t ctx.config)) [
          | inl (message, m) ↦ (ground (arith, n, m), λ s e ok. ground (arith, n, m))
          | inr (payload, m) ↦
              let start =
                event info (text "RemoteExecution: dispatch start") (pos 0) (pos 1)
                  (base_remote_fields t ctx.config (queue t c strategy ctx) [] [] (pos 0)) in
              let ended =
                dispatch_attempts-Ended world payload (read_dispatch_max_retries max_retries) 0
                  default_result ws cs (start ∷ []) in
              rw (n, m, execute)
                (omega (arith, ended.at_most), λ r e ok. (payload, refl, ended.acked r e ok))
        ]
      ]

  -- If a dispatch gives a result that is a success, it has made one attempt and at most as many
  -- retries as are configured, and the worker that the result names has acknowledged the call of one of
  -- them.
  pub execute-Acked :
      (world : ℕ → Meeting) (max_retries : ℤ) (is_canceled : Bool) (now : ℕ) (ws : Workers)
      (cs : Cursors) (r : TaskResult)
      → (execute t c strategy ctx world max_retries is_canceled now ws cs).result ≡ some r
      → is_ok r.status ≡ true
      → let o = execute t c strategy ctx world max_retries is_canceled now ws cs in
        (o.made ≤ suc (read_dispatch_max_retries max_retries))
        × ((payload : Fields) × (extract_dag_body t ctx.config ≡ body payload)
            × Acked world payload o.made r)
  execute-Acked world max_retries is_canceled now ws cs r e ok =
      let both = execute-Ended world max_retries is_canceled now ws cs in (both.0, both.1 r e ok)
