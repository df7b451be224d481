-- ===== src/Dag/Executor/DepsFirst.antt =====
-- A node starts only after every node that it depends on has ended with success.
use task_hub.Prelude.{
  Text-Eq, Text, List, [], ◌≡◌, refl, ◌∙◌, arith, true, ◌≤◌, find, Option-cases, ap, inl, inr,
  Bool-cases, ◌+◌,
}
use task_hub.Runner.Task.{TaskId, TaskStatus, TaskResult, is_ok}
use task_hub.Dag.Types.{DagNode}
use task_hub.Dag.Graph.{get_node, make_key}
use task_hub.Dag.Builder.{DagTaskSpec}
use task_hub.Dag.RunContext.{
  Run, emit, set_node_status, decrement_running, mark_failed, emit_if, set_task_results,
}
use task_hub.Dag.Executor.{
  on_success, on_failure, on_node_finished, skip_all_downstream, failure_status, skip_loop,
  count_edges, visit_new, is_failure_like, is_fail_fast,
}
use task_hub.Dag.Executor.Quiet.{
  successes, ends, Quiet, Quiet-trans, set_node_status-Quiet, skip_loop-Quiet,
}
use task_hub.Dag.Executor.Credit.{Covers, Quiet-Covers, count_key}
use task_hub.Dag.Executor.Ends.{release_children-SameEnds}
use task_hub.Dag.Executor.Release.{
  recorded, release_children-Covers, recorded-success, recorded-failure,
}

-- The same graph, trace and queue.
abbrev pub SameView : Run → Run → Type 0
SameView s t = (t.graph ≡ s.graph) × (t.trace ≡ s.trace) × (t.ready_queue ≡ s.ready_queue)

pub SameView-Quiet : (s t : Run) → SameView s t → Quiet s t
SameView-Quiet s t v = record {
  nodes =
      λ k n e. (n, ground (arith, v.0), record { same_downstream = refl; same_indegree = refl });
  same_successes = λ p. ap (successes p) v.1;
  same_ends = λ p. ap (ends p) v.1;
  same_ready = v.2;
}

on_failure-Quiet :
    (id : TaskId) (n : DagNode) (st : TaskStatus) (s : Run) → Quiet s (on_failure id n st s)
unfolding on_failure decrement_running mark_failed skip_all_downstream
on_failure-Quiet id n st s =
    let s' = set_node_status id (failure_status st) s in
    let marked = record s' { failed = true } in
    let skipped =
      skip_loop (count_edges s'.graph + 1) id (visit_new n.downstream ([], [])) marked in
    let q = set_node_status-Quiet id (failure_status st) s in
    let toMarked : Quiet s marked = Quiet-trans q (SameView-Quiet s' marked (refl, refl, refl)) in
    let toSkipped : Quiet s skipped =
      Quiet-trans toMarked
        (skip_loop-Quiet (count_edges s'.graph + 1) id (visit_new n.downstream ([], [])) marked) in
    elim (Bool-cases (is_failure_like st)) [
      | inr e ↦ rw e (Quiet-trans q (SameView-Quiet s' _ (refl, refl, refl)))
      | inl e ↦ elim (Bool-cases (is_fail_fast s.config.fail_policy)) [
        | inl f ↦ rw (e, f) (Quiet-trans toMarked (SameView-Quiet marked _ (refl, refl, refl)))
        | inr f ↦ rw (e, f) (Quiet-trans toSkipped (SameView-Quiet skipped _ (refl, refl, refl)))
      ]
    ]

module _ (specs : List DagTaskSpec) where
  on_success-Covers :
      (id : TaskId) (n : DagNode) (s : Run)
      → Covers specs (λ k. count_key k n.downstream) s
      → Covers specs (λ k. 0) (on_success id n s)
  unfolding on_success decrement_running
  on_success-Covers id n s c =
      Quiet-Covers specs (λ k. 0) (SameView-Quiet _ _ (refl, refl, refl))
        (release_children-Covers specs n.downstream (set_node_status id TaskStatus.success s) (
          Quiet-Covers specs (λ k. count_key k n.downstream)
            (set_node_status-Quiet id TaskStatus.success s) c))

  pub on_node_finished-Covers :
      (id : TaskId) (r : TaskResult) (s : Run)
      → Covers specs (λ k. 0) s
      → Covers specs (λ k. 0) (on_node_finished id r s)
  unfolding on_node_finished decrement_running get_node
  on_node_finished-Covers id r s c = elim (Option-cases (find (make_key id) s.graph)) [
    | inl e ↦
        rw (e, on_node_finished)
          (Quiet-Covers specs (λ k. 0) (SameView-Quiet s _ (refl, refl, refl)) c)
    | inr (n, e) ↦ elim (Bool-cases (is_ok r.status)) [
      | inl ok ↦
          rw (e, on_node_finished)
            (rw ok (
              on_success-Covers id n (recorded id r s)
                (recorded-success specs id r n s e (ground arith) c)))
      | inr bad ↦
          rw (e, on_node_finished)
            (rw bad (
              Quiet-Covers specs (λ k. 0) (on_failure-Quiet id n r.status (recorded id r s))
                (recorded-failure specs id r s bad c)))
    ]
  ]

on_success-successes :
    (id : TaskId) (n : DagNode) (s : Run) (p : Text)
    → successes p (on_success id n s).trace ≡ successes p s.trace
unfolding on_success decrement_running
on_success-successes id n s p =
    (release_children-SameEnds n.downstream
        (set_node_status id TaskStatus.success s)).successes_kept
      p
    ∙ (set_node_status-Quiet id TaskStatus.success s).same_successes p

recorded-successes :
    (id : TaskId) (r : TaskResult) (s : Run) (p : Text)
    → successes p s.trace ≤ successes p (recorded id r s).trace
unfolding emit emit_if set_task_results successes
recorded-successes id r s p = ground arith

-- No handler takes an end with success back.
pub on_node_finished-successes :
    (id : TaskId) (r : TaskResult) (s : Run) (p : Text)
    → successes p s.trace ≤ successes p (on_node_finished id r s).trace
unfolding on_node_finished decrement_running get_node
on_node_finished-successes id r s p = elim (Option-cases (find (make_key id) s.graph)) [
  | inl e ↦ rw (e, on_node_finished) (omega arith)
  | inr (n, e) ↦ elim (Bool-cases (is_ok r.status)) [
    | inl ok ↦
        rw (e, on_node_finished)
          (rw ok (
            ground
              (arith, on_success-successes id n (recorded id r s) p, recorded-successes id r s p)))
    | inr bad ↦
        rw (e, on_node_finished)
          (rw bad (
            ground (
              arith,
              (on_failure-Quiet id n r.status (recorded id r s)).same_successes p,
              recorded-successes id r s p,
            )))
  ]
]
