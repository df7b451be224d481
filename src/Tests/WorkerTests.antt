-- ===== src/Tests/WorkerTests.antt =====
-- Two workers, one of them cooling down.
use task_hub.Worker.Strategy.Eligibility.{pick_worker_for_queue-none}
use task_hub.Worker.Strategy.{pick_worker_for_queue, round_robin}
use task_hub.Worker.RoundRobin.{picks, round_robin_pick-nth, IsSorted, place}
use task_hub.Worker.Selector.{
  WorkerInfo, Workers, candidates_for, cursor_at, least_load_pick, best_candidate, round_robin_pick,
  best_of, is_better, collect_candidates, is_candidate, is_alive, is_full, is_cooling_down,
  queue_match, contains_text,
}
use task_hub.Worker.Registry.{IsTable, upsert_worker, upsert_worker-picked, mark_dispatch_failure}
use task_hub.Worker.LeastLoad.{Eligible, IsKnown, least_load_pick-some}
use task_hub.Prelude.{
  ℕ, Text, text, [], ◌∷◌, ◌≡◌, refl, arith, Text-Eq, ◌+◌, ◌%◌, ◌≢◌, find, length, none, pos, some,
  text_eq, get_elem?, false, Memᴰ, text_lt, put, List, ◌↔◌,
}

abbrev worker : Text → ℕ → WorkerInfo
worker id running = record {
  id = id;
  host = text "http://localhost";
  port = pos 8083;
  queues = [];
  labels = [];
  running_tasks = pos running;
  last_heartbeat = 100;
  max_running_tasks = pos 4;
  dispatch_cooldown_until = 0;
}

abbrev two : Workers
two = (text "x", worker (text "x") 2) ∷ (text "a", worker (text "a") 1) ∷ []

selecting : Unit {0}
unfolding least_load_pick best_candidate best_of is_better candidates_for collect_candidates
    is_candidate is_alive is_full is_cooling_down queue_match contains_text text_eq text_lt
    cursor_at find
selecting = tt

a_picked : least_load_pick 200 two (text "default") ≡ some (worker (text "a") 1)
unfolding selecting
a_picked = refl

least_load_pick-some_example : Eligible 200 (text "default") (worker (text "a") 1)
least_load_pick-some_example =
    (least_load_pick-some 200 two (text "default") (worker (text "a") 1) a_picked).1

no_free : (v : WorkerInfo) → IsKnown v [] → ¬ Eligible 200 (text "default") v
no_free v (k, m) = elim m [ ]

pick_worker_for_queue-none_example :
    (pick_worker_for_queue round_robin 200 [] (text "default") []).0 ≡ none
pick_worker_for_queue-none_example =
    (pick_worker_for_queue-none round_robin 200 [] (text "default") []).1 no_free

some_candidates : candidates_for 200 (text "default") two ≢ []
unfolding selecting
some_candidates e = cc

round_robin_pick-nth_example :
    (xs : List WorkerInfo) × IsSorted xs
    × (length xs ≡ length (candidates_for 200 (text "default") two))
    × ((v : WorkerInfo) → Memᴰ v xs ↔ Memᴰ v (candidates_for 200 (text "default") two))
    × ((k : ℕ)
        → (w : WorkerInfo) × ((round_robin_pick 200 two
              (text "default")
              (picks 200 two (text "default") k [])).0
            ≡ some w)
          × (get_elem? xs ((place (length xs) (cursor_at (text "default") []) + k) % length xs)
              ≡ some w))
round_robin_pick-nth_example = round_robin_pick-nth 200 two (text "default") [] some_candidates

two-IsTable : IsTable two
unfolding find text_eq
two-IsTable = (refl, refl, (refl, refl, tt))

upsert_worker-picked_example :
    (w : WorkerInfo) × (least_load_pick 400
        (upsert_worker 300 (worker (text "b") 0) two)
        (text "default")
      ≡ some w)
unfolding selecting
upsert_worker-picked_example =
    upsert_worker-picked 300 400 (worker (text "b") 0) two (text "default") two-IsTable
      (omega arith) refl refl

x_picked :
    least_load_pick 200 (mark_dispatch_failure 150 (text "a") 5000 two) (text "default")
    ≡ some (worker (text "x") 2)
unfolding mark_dispatch_failure find put least_load_pick best_candidate best_of is_better
    candidates_for collect_candidates is_candidate is_alive is_full is_cooling_down queue_match
    contains_text text_eq text_lt
x_picked = refl

x_found : find (text "x") two ≡ some (worker (text "x") 2)
unfolding find text_eq
x_found = refl

x-Eligible : Eligible 200 (text "default") (worker (text "x") 2)
unfolding is_alive queue_match is_full text_eq
x-Eligible = record { alive = refl; matches = refl; free = refl }

x_ready : is_cooling_down 200 (worker (text "x") 2) ≡ false
unfolding is_cooling_down
x_ready = refl
