-- ===== src/Execution/Remote/Elsewhere.antt =====
-- server/src/execution/remote_strategy.cpp and server/src/worker/server_worker_registry.cpp: the worker
-- of a retry.
use task_hub.Worker.Cooldown.{mark_dispatch_failure-elsewhere}
use task_hub.Worker.LeastLoad.{Eligible}
use task_hub.Execution.Context.{ExecutionContext, TextCalls}
use task_hub.Execution.Remote.{Output}
use task_hub.Execution.Remote.Retries.{Meeting, again, attempt_once, queue}
use task_hub.Json.{Fields, JsonCalls}
use task_hub.Runner.Task.{TaskResult}
use task_hub.Worker.Registry.{IsTable}
use task_hub.Worker.Selector.{WorkerInfo, Workers, Cursors, least_load_pick, is_cooling_down}
use task_hub.Worker.Strategy.{pick_worker_for_queue, least_load}
use task_hub.Prelude.{ℕ, Bool, false, some, List, ◌≡◌, ◌<◌, ◌+◌, ◌*◌, find, ◌≢◌, Text-Eq}
use task_hub.Execution.Remote.Outcome.{attempt_once-Retried}

-- With least-load picks from a good table: after a round that is tried again, and less than five
-- seconds after its mark, the next pick for the queue is another worker than the one that failed, if
-- there is, in the table with the mark, another that is eligible and does not cool down.
pub retried_elsewhere :
    (t : TextCalls) (c : JsonCalls) (ctx : ExecutionContext) (m : Meeting) (is_last : Bool)
    (payload : Fields) (last r : TaskResult) (before after : Workers) (cs cs' : Cursors)
    (outs : List Output)
    → IsTable (m.others before)
    → attempt_once t c least_load ctx m is_last payload last before cs ≡ again r after cs' outs
    → (w : WorkerInfo) × (least_load_pick m.picked_at (m.others before) (queue t c least_load ctx)
        ≡ some w)
      × ((later : ℕ) (u v : WorkerInfo)
          → later < m.marked_at + 5000 * 1000000
          → find v.id (m.others before) ≡ some v
          → v.id ≢ w.id
          → Eligible later (queue t c least_load ctx) v
          → is_cooling_down later v ≡ false
          → least_load_pick later after (queue t c least_load ctx) ≡ some u
          → u.id ≢ w.id)
unfolding pick_worker_for_queue
retried_elsewhere t c ctx m is_last payload last r before after cs cs' outs table e =
    let (final, tried) =
      attempt_once-Retried t c least_load ctx m is_last payload last r before after cs cs' outs e in
    (
      tried.worker,
      tried.picked,
      λ later u v soon found other el cool picked.
          mark_dispatch_failure-elsewhere m.marked_at later 5000 tried.worker.id
            (queue t c least_load ctx) (m.others before) u v table soon found other el cool
            (rw (← tried.marked) picked),
    )
