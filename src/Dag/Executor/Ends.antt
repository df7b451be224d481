-- ===== src/Dag/Executor/Ends.antt =====
-- Each job that calls back ends its node once, so no node ends more often than it was started.
use task_hub.Prelude.{
  Text-Eq, Text, List, [], ◌∷◌, ◌++◌, ◌≡◌, refl, ◌∙◌, arith, true, ◌≤◌, ap, bit, ◌+◌, ◌=?◌, not,
  is_empty, Option-cases, inl, inr, Bool,
}
use task_hub.Runner.Task.{TaskId, TaskStatus, TaskResult}
use task_hub.Dag.Types.{DagNode}
use task_hub.Dag.Graph.{get_node, make_key}
use task_hub.Dag.RunContext.{
  Effect, node_end, Run, emit, emit_if, set_node_status, set_task_results, decrement_running,
  mark_failed, increment_running,
}
use task_hub.Dag.Executor.{
  Step, poll, call_back, Reach, here, next, consider, submit_node_async, start_node, release_child,
  release_children, push_ready, on_success, on_failure, on_node_finished, skip_all_downstream,
  failure_status, count_edges, visit_new, mark_finished,
}
use task_hub.Dag.Executor.Frame.{on_node_finished-CallsBack}
use task_hub.Dag.Executor.Starts.{starts, on_node_finished-StartsNothing}
use task_hub.Dag.Executor.Quiet.{successes, ends, set_node_status-Quiet, skip_loop-Quiet}
use task_hub.Dag.Executor.Credit.{count_key, count_key-append}

pub successes-le-ends : (p : Text) (tr : List Effect) → successes p tr ≤ ends p tr
unfolding successes ends
successes-le-ends p [] = omega arith
successes-le-ends p (e ∷ es) = ground (arith, successes-le-ends p es)

-- The trace after a handler, as far as ends are concerned.
pub record SameEnds (s t : Run) : Type 0 where
  pub successes_kept : (p : Text) → successes p t.trace ≡ successes p s.trace
  pub ends_kept : (p : Text) → ends p t.trace ≡ ends p s.trace

pub release_child-SameEnds : (c : TaskId) (s : Run) → SameEnds s (release_child c s)
unfolding release_child push_ready emit successes ends
release_child-SameEnds c s = record {
  successes_kept = λ p. ground arith;
  ends_kept = λ p. ground arith;
}

pub release_children-SameEnds : (cs : List TaskId) (s : Run) → SameEnds s (release_children cs s)
unfolding release_children
release_children-SameEnds [] s = record { successes_kept = λ p. refl; ends_kept = λ p. refl }
release_children-SameEnds (c ∷ cs) s =
    let a = release_child-SameEnds c s in
    let b = release_children-SameEnds cs (release_child c s) in
    record {
      successes_kept = λ p. b.successes_kept p ∙ a.successes_kept p;
      ends_kept = λ p. b.ends_kept p ∙ a.ends_kept p;
    }

module _ (p : Text) where
  on_success-ends :
      (id : TaskId) (n : DagNode) (s : Run) → ends p (on_success id n s).trace ≡ ends p s.trace
  unfolding on_success decrement_running
  on_success-ends id n s =
      let s' = set_node_status id TaskStatus.success s in
      (release_children-SameEnds n.downstream s').ends_kept p
      ∙ (set_node_status-Quiet id TaskStatus.success s).same_ends p

  on_failure-ends :
      (id : TaskId) (n : DagNode) (st : TaskStatus) (s : Run)
      → ends p (on_failure id n st s).trace ≡ ends p s.trace
  unfolding on_failure decrement_running mark_failed skip_all_downstream
  on_failure-ends id n st s =
      let s' = set_node_status id (failure_status st) s in
      ground (
        arith,
        (set_node_status-Quiet id (failure_status st) s).same_ends p,
        (skip_loop-Quiet (count_edges s'.graph + 1) id (visit_new n.downstream ([], []))
              (record s' { failed = true })).same_ends
            p,
      )

  on_node_finished-ends :
      (id : TaskId) (r : TaskResult) (s : Run)
      → ends p (on_node_finished id r s).trace ≤ bit (make_key id =? p) + ends p s.trace
  unfolding on_node_finished emit emit_if set_task_results decrement_running ends
  on_node_finished-ends id r s =
      let recorded =
        emit (node_end id r.status)
          (emit_if (not (is_empty id.run_id)) (mark_finished id r) (set_task_results id r s)) in
      elim (Option-cases (get_node id s.graph)) [
        | inl e ↦ rw (e, on_node_finished) (ground arith)
        | inr (n, e) ↦
            rw (e, on_node_finished)
              (ground
                (arith, on_success-ends id n recorded, on_failure-ends id n r.status recorded))
      ]

  -- Jobs out and ends together are at most the starts.
  abbrev pub JobsStarted : Run → Type 0
  JobsStarted s = count_key p s.in_flight + ends p s.trace ≤ starts p s.trace

  consider-JobsStarted :
      (b : Bool) (id : TaskId) (s : Run)
      → JobsStarted s
      → JobsStarted (consider submit_node_async b id s)
  unfolding consider submit_node_async start_node emit emit_if set_node_status increment_running
      starts ends count_key
  consider-JobsStarted b id s h = ground (arith, count_key-append p s.in_flight (id ∷ []))

  pub Step-JobsStarted : {s t : Run} → Step s t → JobsStarted s → JobsStarted t
  unfolding count_key
  Step-JobsStarted {s} (poll b id rest stale free e q) h =
      ground (arith, q, consider-JobsStarted b id (record s { ready_queue = rest }))
  Step-JobsStarted {s} (call_back before id after r e q) h =
      let s' = record s { in_flight = before ++ after } in
      ground (
        arith,
        q,
        on_node_finished-ends id r s',
        on_node_finished-StartsNothing p id r s',
        on_node_finished-CallsBack id r s',
        count_key-append p before (id ∷ after),
        count_key-append p before after,
        ap (count_key p) e,
      )

  pub Reach-JobsStarted : {s t : Run} → JobsStarted s → Reach s t → JobsStarted t
  Reach-JobsStarted h here = h
  Reach-JobsStarted h (next r st) = Step-JobsStarted st (Reach-JobsStarted h r)
