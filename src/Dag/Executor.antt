-- ===== src/Dag/Executor.antt =====
-- server/src/dag/dag_executor.cpp: each handler is a function on the state of the run, and the
-- threads are the interleavings of `Step`.
pub mod Frame
pub mod Parallel
pub mod Starts
pub mod Once
pub mod Quiet
pub mod Credit
pub mod Ends
pub mod Release
pub mod DepsFirst
pub mod Waits
pub mod Order
use task_hub.Prelude.{
  ℕ, zero, suc, ◌+◌, Text, text, List, [], ◌∷◌, ◌++◌, length, none, some, put, Text-Eq, ◌≡◌,
  if◌then◌else◌, Bool, true, false, ◌&&◌, ◌||◌, not, ℤ, pos, ◌-ℤ◌, eqb_ℤ, leb_ℤ, ltb, is_empty,
  ◌<ℤ◌,
}
use task_hub.Runner.Task.{
  TaskStatus, TaskId, TaskId-Eq, TaskResult, default_result, is_ok, TaskConfig,
}
use task_hub.Dag.Types.{FailPolicy, fail_fast, skip_downstream, DagNode, decrement_indegree}
use task_hub.Dag.Graph.{DagGraph, make_key, get_node}
use task_hub.Dag.Builder.{contains}
use task_hub.Dag.RunContext.{
  node_ready, node_start, node_end, node_skipped, mark_running, mark_finished, mark_skipped, Run,
  emit, emit_if, increment_running, decrement_running, mark_failed, set_node_status,
  set_task_results,
}

-- The statuses in which a queued node is dropped.
abbrev pub is_settled : TaskStatus → Bool
is_settled TaskStatus.pending = false
is_settled _ = true

-- The statuses in which a child no longer counts its dependencies.
abbrev pub is_blocked : TaskStatus → Bool
is_blocked TaskStatus.skipped = true
is_blocked TaskStatus.failed = true
is_blocked TaskStatus.timeout = true
is_blocked TaskStatus.canceled = true
is_blocked _ = false

abbrev pub is_fail_fast : FailPolicy → Bool
is_fail_fast fail_fast = true
is_fail_fast skip_downstream = false

unfoldable pub push_ready : TaskId → Run → Run
push_ready id s = emit (node_ready id) (record s { ready_queue = s.ready_queue ++ id ∷ [] })

unfoldable pub init_ready_queue : DagGraph → Run → Run
init_ready_queue [] s = s
init_ready_queue ((k, n) ∷ g) s =
    init_ready_queue g (if eqb_ℤ n.indegree (pos 0) then push_ready n.id s else s)

-- One child of a node that has succeeded.
unfoldable pub release_child : TaskId → Run → Run
release_child child s = elim (get_node child s.graph) [
  | none ↦ s
  | some n ↦
      if is_blocked n.status
      then s
      else let (n', new_deg) = decrement_indegree n in
        let s' = record s { graph = put (make_key child) n' s.graph } in
        if eqb_ℤ new_deg (pos 0) then push_ready child s' else s'
]

unfoldable pub release_children : List TaskId → Run → Run
release_children [] s = s
release_children (c ∷ cs) s = release_children cs (release_child c s)

-- `if (visited.insert(id.value).second) toVisit.push(id)`: by the value, without the run id.
unfoldable pub visit_new : List TaskId → List TaskId × List Text → List TaskId × List Text
visit_new [] t = t
visit_new (c ∷ cs) (to_visit, visited) = visit_new cs (
    if contains c.value visited
    then (to_visit, visited)
    else (to_visit ++ c ∷ [], c.value ∷ visited))

unfoldable pub skip_node : TaskId → TaskId → Run → Run
skip_node upstream child s = emit (node_skipped child upstream) (
    emit_if (not (is_empty child.run_id)) (mark_skipped child upstream) (
      set_task_results child (record default_result { status = TaskStatus.skipped })
        (set_node_status child TaskStatus.skipped s)))

-- `while (!toVisit.empty())`. The fuel bounds the rounds.
unfoldable pub skip_loop : ℕ → TaskId → List TaskId × List Text → Run → Run
skip_loop zero upstream t s = s
skip_loop (suc fuel) upstream ([], visited) s = s
skip_loop (suc fuel) upstream (c ∷ to_visit, visited) s = elim (get_node c s.graph) [
  | none ↦ skip_loop fuel upstream (to_visit, visited) s
  | some n ↦
      skip_loop fuel upstream (visit_new n.downstream (to_visit, visited)) (skip_node upstream c s)
]

unfoldable pub count_edges : DagGraph → ℕ
count_edges [] = 0
count_edges ((k, n) ∷ g) = length n.downstream + count_edges g

unfoldable pub skip_all_downstream : TaskId → DagNode → Run → Run
skip_all_downstream id n s =
    skip_loop (count_edges s.graph + 1) id (visit_new n.downstream ([], [])) s

-- The status that a result which is not a success leaves on its node.
abbrev pub failure_status : TaskStatus → TaskStatus
failure_status TaskStatus.timeout = TaskStatus.timeout
failure_status TaskStatus.canceled = TaskStatus.canceled
failure_status _ = TaskStatus.failed

abbrev pub is_failure_like : TaskStatus → Bool
is_failure_like TaskStatus.failed = true
is_failure_like TaskStatus.timeout = true
is_failure_like TaskStatus.canceled = true
is_failure_like _ = false

unfoldable pub on_failure : TaskId → DagNode → TaskStatus → Run → Run
on_failure id n st s =
    let s' = set_node_status id (failure_status st) s in
    if is_failure_like st
    then if is_fail_fast s.config.fail_policy
      then decrement_running (mark_failed s')
      else decrement_running (skip_all_downstream id n (mark_failed s'))
    else decrement_running s'

unfoldable pub on_success : TaskId → DagNode → Run → Run
on_success id n s =
    decrement_running (release_children n.downstream (set_node_status id TaskStatus.success s))

unfoldable pub on_node_finished : TaskId → TaskResult → Run → Run
on_node_finished id r s = elim (get_node id s.graph) [
  | none ↦ decrement_running s
  | some n ↦
      let recorded =
        emit (node_end id r.status)
          (emit_if (not (is_empty id.run_id)) (mark_finished id r) (set_task_results id r s)) in
      if is_ok r.status then on_success id n recorded else on_failure id n r.status recorded
]

-- The start of a node, up to where the job is posted or run.
unfoldable pub start_node : TaskId → Run → Run
start_node id s = emit (node_start id) (
    emit_if (not (is_empty id.run_id)) (mark_running id)
      (increment_running (set_node_status id TaskStatus.running s)))

-- `submitNodeAsync` on a thread that is not the pool's: the job is posted.
unfoldable pub submit_node_async : TaskId → Run → Run
submit_node_async id s = elim (get_node id s.graph) [
  | none ↦ s
  | some n ↦
      if is_settled n.status
      then s
      else let s' = start_node id s in record s' { in_flight = s'.in_flight ++ id ∷ [] }
]

-- The same on a thread of the pool, where the node runs at once; `run` is `TaskRunner::run`.
unfoldable pub submit_node_nested : (TaskConfig → TaskResult) → TaskId → Run → Run
submit_node_nested run id s = elim (get_node id s.graph) [
  | none ↦ s
  | some n ↦
      if is_settled n.status then s else on_node_finished id (run n.runner_cfg) (start_node id s)
]

-- The inner loop of `execute` on a node taken from the queue. `saw_failed` is what `isFailed` has read,
-- which a job that calls back before the node is submitted can have outdated.
unfoldable pub consider : (TaskId → Run → Run) → Bool → TaskId → Run → Run
consider submit saw_failed id s =
    let settled : Bool = elim (get_node id s.graph) [
      | none ↦ false
      | some n ↦ is_settled n.status
    ] in
    if settled
    then s
    else if is_fail_fast s.config.fail_policy && saw_failed
    then s
    else submit id s

-- `static_cast<int>` of a 32-bit unsigned number, and the floor of 1.
unfoldable pub effective_parallel : ℕ → ℤ
effective_parallel n =
    let v = if ltb n 2147483648 then pos n else (pos n -ℤ pos 4294967296) in
    if leb_ℤ v (pos 0) then pos 1 else v

-- `execute` up to its loop.
unfoldable pub begin : Run → Run
begin s =
    init_ready_queue s.graph (record s { max_parallel = effective_parallel s.config.max_parallel })

-- One action of the scheduling thread, or of the thread on which a job calls back.
pub data Step (s : Run) : Run → Type 0 where
  poll :
      (saw_failed : Bool) (id : TaskId) (rest : List TaskId)
      → (saw_failed ≡ true → s.failed ≡ true)
      → s.running <ℤ s.max_parallel
      → s.ready_queue ≡ id ∷ rest
      → {t : Run}
      → t ≡ (
          if is_empty id.value
          then record s { ready_queue = rest }
          else consider submit_node_async saw_failed id (record s { ready_queue = rest }))
      → Step s t
  call_back :
      (before : List TaskId) (id : TaskId) (after : List TaskId) (r : TaskResult)
      → s.in_flight ≡ before ++ id ∷ after
      → {t : Run} → t ≡ on_node_finished id r (record s { in_flight = before ++ after })
      → Step s t

pub data Reach (s : Run) : Run → Type 0 where
  here : Reach s s
  next : {t u : Run} → Reach s t → Step t u → Reach s u

-- The test that ends the loop, the one that ends a wait, and the result of `execute`.
unfoldable pub is_done : Run → Bool
is_done s = is_empty s.ready_queue && eqb_ℤ s.running (pos 0)

unfoldable pub is_awake : Run → Bool
is_awake s =
    not (is_empty s.ready_queue)
    || eqb_ℤ s.running (pos 0)
    || (is_fail_fast s.config.fail_policy && s.failed)

unfoldable pub final_result : Run → TaskResult
final_result s =
    if s.failed
    then record default_result { status = TaskStatus.failed; message = text "dag failed" }
    else record default_result { status = TaskStatus.success }
