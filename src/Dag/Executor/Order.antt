-- ===== src/Dag/Executor/Order.antt =====
-- A run over a built graph starts a node only after the ends of what it depends on.
use task_hub.Dag.Executor.Once.{started_at_most_once}
use task_hub.Dag.Builder.Keyed.{mem-find, build-IsKeyed, find-keyed}
use task_hub.Dag.Executor.Credit.{count_key, credit_full}
use task_hub.Dag.Executor.Ends.{JobsStarted, successes-le-ends, Reach-JobsStarted}
use task_hub.Dag.Builder.Built.{build_edges}
use task_hub.Dag.Builder.Links.{deps_of, dependents_of}
use task_hub.Dag.Executor.Waits.{Waits, Reach-Waits}
use task_hub.Dag.Executor.Starts.{starts}
use task_hub.Dag.Types.{DagNode, DagConfig}
use task_hub.Dag.Executor.Quiet.{successes, ends}
use task_hub.Dag.Graph.{deps_at, DagGraph, downstream_at, make_key}
use task_hub.Dag.RunContext.{emit, new_run, Run}
use task_hub.Dag.Builder.{DagTaskSpec, build}
use task_hub.Dag.Executor.{init_ready_queue, push_ready, begin, effective_parallel, Reach}
use task_hub.Runner.Task.{TaskId-Eq, TaskId}
use mathlib.Core.List.Memᴰ
use task_hub.Prelude.{
  Text-Eq, ◌≡◌, refl, arith, ◌≤◌, List, Bool, Text, Memᴰ, find, ◌⊎◌, eqb_ℤ, some, length, pos, inl,
  true, inr, pos_part, neg_part, [], ◌∷◌, if◌then◌else◌, Bool-cases,
}

-- The queue that `initReadyQueue` leaves: the old one, and nodes whose indegree is 0.
init_ready_queue_mem :
    (g : DagGraph) (s : Run) (id : TaskId)
    → Memᴰ id (init_ready_queue g s).ready_queue
    → Memᴰ id s.ready_queue
      ⊎ ((k : Text) × (n : DagNode) × Memᴰ (k, n) g
          × (n.id ≡ id)
          × (eqb_ℤ n.indegree (pos 0) ≡ true))
unfolding init_ready_queue push_ready emit
init_ready_queue_mem [] s id m = inl m
init_ready_queue_mem ((k, n) ∷ g) s id m = elim (Bool-cases (eqb_ℤ n.indegree (pos 0))) [
  | inr z ↦ elim (init_ready_queue_mem g s id (ground arith)) [
    | inl o ↦ inl o
    | inr (j, x, mem, a, b) ↦ inr (j, x, Memᴰ.tail mem, a, b)
  ]
  | inl z ↦ elim (init_ready_queue_mem g (push_ready n.id s) id (ground arith)) [
    | inl o ↦ elim (Memᴰ.append_cases s.ready_queue o) [
      | inl old ↦ inl old
      | inr new ↦ inr (k, n, Memᴰ.head refl, ground (arith, Memᴰ.eq_of_singleton new), z)
    ]
    | inr (j, x, mem, a, b) ↦ inr (j, x, Memᴰ.tail mem, a, b)
  ]
]

module _ (specs : List DagTaskSpec) where
  begin-graph :
      (s : Run) (g : DagGraph)
      → ((init_ready_queue g s).graph ≡ s.graph)
        × ((init_ready_queue g s).in_flight ≡ s.in_flight)
        × ((p : Text)
            → (successes p (init_ready_queue g s).trace ≡ successes p s.trace)
              × (ends p (init_ready_queue g s).trace ≡ ends p s.trace)
              × (starts p (init_ready_queue g s).trace ≡ starts p s.trace))
  unfolding init_ready_queue push_ready emit successes ends starts
  begin-graph s [] = (refl, refl, λ p. (refl, refl, refl))
  begin-graph s ((k, n) ∷ g) =
      let h = begin-graph (if eqb_ℤ n.indegree (pos 0) then push_ready n.id s else s) g in
      (ground (arith, h.0), ground (arith, h.1), λ p. ground (arith, h.2 p))

  no_deps :
      (n : DagNode) (k : Text)
      → find k (build specs) ≡ some n
      → (length (deps_of k specs) ≡ pos_part n.indegree)
        × (neg_part n.indegree ≡ 0)
        × (n.downstream ≡ dependents_of k specs)
  unfolding deps_at downstream_at
  no_deps n k e = let h = build_edges specs k in ground (arith, h.0, h.1, h.2 n e)

  source :
      (k : Text) (n : DagNode)
      → Memᴰ (k, n) (build specs)
      → eqb_ℤ n.indegree (pos 0) ≡ true
      → length (deps_of (make_key n.id) specs) ≡ 0
  source k n m z =
      let e = mem-find (build specs) k n (build-IsKeyed specs) m in
      ground (arith, no_deps n k e, find-keyed (build specs) k n (build-IsKeyed specs) e)

  begin-Waits :
      (config : DagConfig) (b c : Bool) → Waits specs (begin (new_run config (build specs) b c))
  unfolding begin new_run starts
  begin-Waits config b c =
      let s = record (new_run config (build specs) b c) {
        max_parallel = effective_parallel config.max_parallel;
      } in
      let h = begin-graph s (build specs) in
      record {
        covers = record {
          edges = λ k n e. (no_deps n k (ground (arith, e, h.0))).2;
          enough = λ k n e. omega (arith, no_deps n k (ground (arith, e, h.0)));
          queued = λ id m. elim (init_ready_queue_mem (build specs) s id m) [
            | inl o ↦ elim o [ ]
            | inr (k, n, mem, a, z) ↦ ground (arith, source k n mem z, a)
          ];
        };
        started = λ k q. ground (arith, h.2 k);
      }

  begin-JobsStarted :
      (config : DagConfig) (b c : Bool) (p : Text)
      → JobsStarted p (begin (new_run config (build specs) b c))
  unfolding begin new_run count_key starts ends
  begin-JobsStarted config b c p =
      let s = record (new_run config (build specs) b c) {
        max_parallel = effective_parallel config.max_parallel;
      } in
      let h = begin-graph s (build specs) in ground (arith, h.1, h.2 p)

  -- In every run of a built graph, and at every point of it, each dependency of a node that has
  -- been started has ended with success, exactly once.
  pub starts_after_deps :
      (config : DagConfig) (b c : Bool) {t : Run}
      → Reach (begin (new_run config (build specs) b c)) t
      → (k : Text) → 1 ≤ starts k t.trace
      → (d : TaskId) → Memᴰ d (deps_of k specs)
      → successes (make_key d) t.trace ≡ 1
  starts_after_deps config b c {t} r k h d m =
      let w = Reach-Waits specs (begin-Waits config b c) r in
      credit_full t.trace (deps_of k specs) d
        (λ p. omega (
          arith,
          successes-le-ends p t.trace,
          started_at_most_once config (build specs) b c p r,
          Reach-JobsStarted p (begin-JobsStarted config b c p) r,
        ))
        (w.started k h) m
