-- ===== src/Dag/Executor/Waits.antt =====
-- Every step keeps the credit of what is queued and of what has been started.
use task_hub.Dag.Executor.Quiet.{Quiet-trans, start_node-Quiet}
use task_hub.Dag.Executor.Starts.{starts, on_node_finished-StartsNothing}
use task_hub.Dag.Executor.DepsFirst.{
  on_node_finished-Covers, on_node_finished-successes, SameView-Quiet,
}
use task_hub.Dag.Graph.{make_key, get_node}
use task_hub.Dag.Builder.Links.{deps_of}
use task_hub.Dag.Executor.Credit.{Covers, credit, Quiet-Covers, credit_mono, credit-same}
use task_hub.Runner.Task.{TaskId, TaskResult}
use task_hub.Dag.RunContext.{emit, Run, emit_if, set_node_status, increment_running}
use task_hub.Dag.Builder.{DagTaskSpec}
use task_hub.Prelude.{
  Text-Eq, text_eq_iff, ◌≡◌, refl, arith, ◌≤◌, List, length, subst, ◌∷◌, ◌⊎◌, Memᴰ, Text, ◌++◌, [],
  sym, Bool-cases, Option-cases, bit, is_empty, inl, ◌=?◌, inr, ◌+◌, ◌&&◌, Bool,
}
use task_hub.Dag.Executor.{
  Step, poll, call_back, Reach, here, next, consider, start_node, submit_node_async,
  on_node_finished, is_fail_fast, is_settled,
}

-- What a node from the queue comes to.
consider_cases :
    (b : Bool) (id : TaskId) (s : Run)
    → (consider submit_node_async b id s ≡ s)
      ⊎ (consider submit_node_async b id s
          ≡ record (start_node id s) { in_flight = (start_node id s).in_flight ++ id ∷ [] })
unfolding consider submit_node_async
consider_cases b id s = elim (Option-cases (get_node id s.graph)) [
  | inl e ↦ elim (Bool-cases (is_fail_fast s.config.fail_policy && b)) [
    | inl f ↦ inl (ground (arith, e))
    | inr f ↦ inl (ground (arith, e))
  ]
  | inr (n, e) ↦ elim (Bool-cases (is_settled n.status)) [
    | inl h ↦ inl (ground (arith, e))
    | inr h ↦ elim (Bool-cases (is_fail_fast s.config.fail_policy && b)) [
      | inl f ↦ inl (ground (arith, e))
      | inr f ↦ inr (ground (arith, e))
    ]
  ]
]

start_node-starts :
    (k : Text) (id : TaskId) (s : Run)
    → starts k (start_node id s).trace ≡ bit (make_key id =? k) + starts k s.trace
unfolding start_node emit emit_if set_node_status increment_running starts
start_node-starts k id s = ground arith

module _ (specs : List DagTaskSpec) where
  -- What has been started has full credit, and so has what is queued.
  pub record Waits (s : Run) : Type 0 where
    pub covers : Covers specs (λ k. 0) s
    pub started :
        (k : Text)
        → 1 ≤ starts k s.trace
        → length (deps_of k specs) ≤ credit s.trace (deps_of k specs)

  dequeued-Waits :
      (id : TaskId) (rest : List TaskId) (s : Run)
      → s.ready_queue ≡ id ∷ rest
      → Waits s
      → Waits (record s { ready_queue = rest })
  dequeued-Waits id rest s e w = record {
    covers = record {
      edges = w.covers.edges;
      enough = w.covers.enough;
      queued =
          λ j m. w.covers.queued j (subst (λ (l : List TaskId). Memᴰ j l) (sym e) (Memᴰ.tail m));
    };
    started = w.started;
  }

  start_node-Waits :
      (id : TaskId) (s : Run)
      → length (deps_of (make_key id) specs) ≤ credit s.trace (deps_of (make_key id) specs)
      → Waits s
      → Waits (record (start_node id s) { in_flight = (start_node id s).in_flight ++ id ∷ [] })
  start_node-Waits id s full w =
      let s' = start_node id s in
      record {
        covers =
            Quiet-Covers specs (λ k. 0)
              (Quiet-trans (start_node-Quiet id s) (SameView-Quiet s' _ (refl, refl, refl)))
              w.covers;
        started = λ k h. ground (
          arith,
          full,
          w.started k,
          start_node-starts k id s,
          text_eq_iff (make_key id) k,
          credit-same s.trace s'.trace (deps_of k specs) (start_node-Quiet id s).same_successes,
        );
      }

  consider-Waits :
      (b : Bool) (id : TaskId) (s : Run)
      → length (deps_of (make_key id) specs) ≤ credit s.trace (deps_of (make_key id) specs)
      → Waits s
      → Waits (consider submit_node_async b id s)
  consider-Waits b id s full w = elim (consider_cases b id s) [
    | inl e ↦ subst Waits (sym e) w
    | inr e ↦ subst Waits (sym e) (start_node-Waits id s full w)
  ]

  on_node_finished-Waits :
      (id : TaskId) (r : TaskResult) (s : Run) → Waits s → Waits (on_node_finished id r s)
  on_node_finished-Waits id r s w = record {
    covers = on_node_finished-Covers specs id r s w.covers;
    started = λ k h. omega (
      arith,
      w.started k (ground (arith, on_node_finished-StartsNothing k id r s)),
      credit_mono s.trace (on_node_finished id r s).trace (deps_of k specs)
          (on_node_finished-successes id r s),
    );
  }

  Step-Waits : {s t : Run} → Step s t → Waits s → Waits t
  Step-Waits {s} (poll b id rest stale free e q) w =
      let w' = dequeued-Waits id rest s e w in
      let c =
        consider-Waits b id (record s { ready_queue = rest })
          (w.covers.queued id (subst (λ (l : List TaskId). Memᴰ id l) (sym e) (Memᴰ.head refl)))
          w' in
      subst Waits (sym q)
        (elim (Bool-cases (is_empty id.value)) [ inl h ↦ rw h w' | inr h ↦ rw h c ])
  Step-Waits {s} (call_back before id after r e q) w = subst Waits (sym q) (
      on_node_finished-Waits id r (record s { in_flight = before ++ after })
        (record {
          covers = Quiet-Covers specs (λ k. 0) (SameView-Quiet s _ (refl, refl, refl)) w.covers;
          started = w.started;
        }))

  pub Reach-Waits : {s t : Run} → Waits s → Reach s t → Waits t
  Reach-Waits w here = w
  Reach-Waits w (next r st) = Step-Waits st (Reach-Waits w r)
