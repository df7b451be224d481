-- ===== src/Dag/Executor/Frame.antt =====
-- What the handlers leave alone: the counters and the queue of jobs, outside the lines that set them.
use task_hub.Dag.Graph.{get_node}
use task_hub.Prelude.{
  Text, List, [], ◌∷◌, ◌≡◌, ◌∙◌, ◌-ℤ◌, pos, arith, true, ℕ, not, suc, is_empty, Option-cases, inl,
  inr, zero, ◌+◌,
}
use task_hub.Runner.Task.{TaskId, TaskStatus, TaskResult}
use task_hub.Dag.Types.{DagNode}
use task_hub.Dag.RunContext.{
  Run, emit, emit_if, set_node_status, set_task_results, decrement_running, mark_failed,
}
use task_hub.Dag.Executor.{
  push_ready, release_child, release_children, skip_node, skip_loop, skip_all_downstream,
  on_failure, on_success, on_node_finished, visit_new, failure_status, node_end, count_edges,
  mark_finished,
}

pub record SameControl (s t : Run) : Type 0 where
  pub same_config : t.config ≡ s.config
  pub same_running : t.running ≡ s.running
  pub same_failed : t.failed ≡ s.failed
  pub same_max : t.max_parallel ≡ s.max_parallel
  pub same_jobs : t.in_flight ≡ s.in_flight

pub SameControl-trans : {s t u : Run} → SameControl s t → SameControl t u → SameControl s u
SameControl-trans a b = record {
  same_config = b.same_config ∙ a.same_config;
  same_running = b.same_running ∙ a.same_running;
  same_failed = b.same_failed ∙ a.same_failed;
  same_max = b.same_max ∙ a.same_max;
  same_jobs = b.same_jobs ∙ a.same_jobs;
}

pub set_node_status-SameControl :
    (id : TaskId) (st : TaskStatus) (s : Run) → SameControl s (set_node_status id st s)
unfolding set_node_status emit_if emit
set_node_status-SameControl id st s = ground arith

release_child-SameControl : (c : TaskId) (s : Run) → SameControl s (release_child c s)
unfolding release_child push_ready emit
release_child-SameControl c s = ground arith

pub release_children-SameControl :
    (cs : List TaskId) (s : Run) → SameControl s (release_children cs s)
unfolding release_children
release_children-SameControl [] s = ground arith
release_children-SameControl (c ∷ cs) s =
    SameControl-trans (release_child-SameControl c s)
      (release_children-SameControl cs (release_child c s))

skip_node-SameControl : (u c : TaskId) (s : Run) → SameControl s (skip_node u c s)
unfolding skip_node emit emit_if set_task_results set_node_status
skip_node-SameControl u c s = ground arith

pub skip_loop-SameControl :
    (fuel : ℕ) (u : TaskId) (t : List TaskId × List Text) (s : Run)
    → SameControl s (skip_loop fuel u t s)
unfolding skip_loop
skip_loop-SameControl zero u t s = ground arith
skip_loop-SameControl (suc fuel) u ([], visited) s = ground arith
skip_loop-SameControl (suc fuel) u (c ∷ q, visited) s = elim (Option-cases (get_node c s.graph)) [
  | inl e ↦ rw (e, skip_loop) (skip_loop-SameControl fuel u (q, visited) s)
  | inr (n, e) ↦
      rw (e, skip_loop)
        (SameControl-trans (skip_node-SameControl u c s)
          (skip_loop-SameControl fuel u (visit_new n.downstream (q, visited)) (skip_node u c s)))
]

-- A job that calls back takes one off the count of running nodes, whatever its result.
pub record CallsBack (s t : Run) : Type 0 where
  pub back_config : t.config ≡ s.config
  pub back_running : t.running ≡ s.running -ℤ pos 1
  pub back_failed : s.failed ≡ true → t.failed ≡ true
  pub back_max : t.max_parallel ≡ s.max_parallel
  pub back_jobs : t.in_flight ≡ s.in_flight

on_success-CallsBack : (id : TaskId) (n : DagNode) (s : Run) → CallsBack s (on_success id n s)
unfolding on_success decrement_running
on_success-CallsBack id n s = ground (
  arith,
  set_node_status-SameControl id TaskStatus.success s,
  release_children-SameControl n.downstream (set_node_status id TaskStatus.success s),
)

on_failure-CallsBack :
    (id : TaskId) (n : DagNode) (st : TaskStatus) (s : Run) → CallsBack s (on_failure id n st s)
unfolding on_failure decrement_running mark_failed skip_all_downstream
on_failure-CallsBack id n st s =
    let s' = set_node_status id (failure_status st) s in
    ground (
      arith,
      set_node_status-SameControl id (failure_status st) s,
      skip_loop-SameControl (count_edges s'.graph + 1) id (visit_new n.downstream ([], []))
          (record s' { failed = true }),
    )

pub on_node_finished-CallsBack :
    (id : TaskId) (r : TaskResult) (s : Run) → CallsBack s (on_node_finished id r s)
unfolding on_node_finished emit emit_if set_task_results decrement_running
on_node_finished-CallsBack id r s =
    let recorded =
      emit (node_end id r.status)
        (emit_if (not (is_empty id.run_id)) (mark_finished id r) (set_task_results id r s)) in
    elim (Option-cases (get_node id s.graph)) [
      | inl e ↦ rw (e, on_node_finished) (ground arith)
      | inr (n, e) ↦
          rw (e, on_node_finished)
            (ground (
              arith,
              on_success-CallsBack id n recorded,
              on_failure-CallsBack id n r.status recorded,
            ))
    ]
