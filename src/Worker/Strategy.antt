-- ===== src/Worker/Strategy.antt =====
-- server/src/worker/server_worker_registry.cpp: the strategy that the configuration names, and the
-- choice by it.
use task_hub.Runner.Task.{to_lower}
use task_hub.Prelude.{ℕ, Text, text, if◌then◌else◌, map, is_empty, text_eq, ◌||◌, Option}
use task_hub.Worker.Selector.{WorkerInfo, Workers, Cursors, least_load_pick, round_robin_pick}
pub mod Eligibility

pub data Strategy : Type 0 where
  least_load round_robin : Strategy

unfoldable pub normalize_strategy_name : Text → Text
normalize_strategy_name s = if is_empty s then text "least-load" else map to_lower s

unfoldable pub init_selector : Text → Strategy
unfolding text_eq to_lower
init_selector configured =
    let s = normalize_strategy_name configured in
    if text_eq s (text "rr") || text_eq s (text "round-robin") || text_eq s (text "round_robin")
    then round_robin
    else least_load

unfoldable pub pick_worker_for_queue :
    Strategy → ℕ → Workers → Text → Cursors → Option WorkerInfo × Cursors
pick_worker_for_queue least_load now ws queue cs = (least_load_pick now ws queue, cs)
pick_worker_for_queue round_robin now ws queue cs = round_robin_pick now ws queue cs
