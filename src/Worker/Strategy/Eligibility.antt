-- ===== src/Worker/Strategy/Eligibility.antt =====
-- server/src/worker: when the choice finds a worker, by either strategy.
use task_hub.Worker.RoundRobin.{length-sort_candidates}
use task_hub.Worker.Selector.{
  WorkerInfo, Workers, Cursors, best_candidate, round_robin_pick, candidates_for, least_load_pick,
  sort_candidates, cursor_at,
}
use task_hub.Prelude.{
  ℕ, Text, ◌≡◌, ◌↔◌, List, [], ◌∷◌, none, arith, get_elem?, length, ◌≤◌, ◌<◌, ◌⊎◌, zero, suc,
  is_empty, false, inl, inr, refl, leb, if◌then◌else◌,
}
use task_hub.Worker.Strategy.{Strategy, least_load, round_robin, pick_worker_for_queue}
use task_hub.Worker.LeastLoad.{Eligible, IsKnown, least_load_pick-none}

best_candidate-none : (ws : List WorkerInfo) → (best_candidate ws ≡ none) ↔ (ws ≡ [])
unfolding best_candidate
best_candidate-none [] = ground arith
best_candidate-none (w ∷ ws) = ground arith

get_elem?-none : {A : Type 0} (xs : List A) (i : ℕ) → get_elem? xs i ≡ none → length xs ≤ i
get_elem?-none [] i h = omega arith
get_elem?-none (x ∷ xs) zero h = cc
get_elem?-none (x ∷ xs) (suc i) h = omega (arith, get_elem?-none xs i h)

is_empty_cases : {A : Type 0} (xs : List A) → (xs ≡ []) ⊎ ((is_empty xs ≡ false) × (0 < length xs))
is_empty_cases [] = inl refl
is_empty_cases (x ∷ xs) = inr (refl, omega arith)

round_robin_pick-none :
    (now : ℕ) (ws : Workers) (queue : Text) (cs : Cursors)
    → ((round_robin_pick now ws queue cs).0 ≡ none) ↔ (candidates_for now queue ws ≡ [])
unfolding round_robin_pick
round_robin_pick-none now ws queue cs =
    let xs = candidates_for now queue ws in
    let c = cursor_at queue cs in
    elim (is_empty_cases xs) [
      | inl e ↦ ground (arith, e)
      | inr (e, l) ↦ ground (
        arith,
        e,
        l,
        length-sort_candidates xs,
        get_elem?-none (sort_candidates xs) (if leb (length xs) c then 0 else c),
      )
    ]

-- By either strategy, and wherever the cursors are, no worker is picked exactly when no known worker
-- is alive, has the queue and is not full.
pub pick_worker_for_queue-none :
    (s : Strategy) (now : ℕ) (ws : Workers) (queue : Text) (cs : Cursors)
    → ((pick_worker_for_queue s now ws queue cs).0 ≡ none)
      ↔ ((v : WorkerInfo) → IsKnown v ws → ¬ Eligible now queue v)
unfolding pick_worker_for_queue
pick_worker_for_queue-none least_load now ws queue cs = least_load_pick-none now ws queue
pick_worker_for_queue-none round_robin now ws queue cs =
    let (f, g) = least_load_pick-none now ws queue in
    let (p, q) = best_candidate-none (candidates_for now queue ws) in
    let (a, b) = round_robin_pick-none now ws queue cs in
    (λ e. f (unfold least_load_pick in q (a e)), λ h. b (p (unfold least_load_pick in g h)))
