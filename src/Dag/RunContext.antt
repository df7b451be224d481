-- ===== src/Dag/RunContext.antt =====
-- server/src/dag/dag_run_context.h, dag_run_context.cpp and dag_executor.h: the state of one run.
-- The context, the executor's queue, the jobs handed to the thread pool and the effects seen from
-- outside are one record. Times of database marks are left out.
use task_hub.Prelude.{
  List, [], ◌∷◌, put, Text-Eq, if◌then◌else◌, Bool, true, false, ℤ, pos, ◌+ℤ◌, ◌-ℤ◌,
}
use task_hub.Runner.Task.{TaskStatus, TaskId, TaskId-Eq, TaskResult}
use task_hub.Dag.Types.{DagConfig, set_status}
use task_hub.Dag.Graph.{DagGraph, make_key, update_node}

-- What a run shows: callbacks, WebSocket events and the marks of `TaskRunRepo`.
pub data Effect : Type 0 where
  status_changed : TaskId → TaskStatus → Effect
  node_ready node_start : TaskId → Effect
  node_end : TaskId → TaskStatus → Effect
  node_skipped : TaskId → TaskId → Effect
  mark_running : TaskId → Effect
  mark_finished : TaskId → TaskResult → Effect
  mark_skipped : TaskId → TaskId → Effect
  dag_finished : Bool → Effect

pub record Run : Type 0 where
  pub config : DagConfig
  pub graph : DagGraph
  pub has_status_callback : Bool
  pub has_finish_callback : Bool
  pub running : ℤ
  pub failed : Bool
  pub task_results : List (TaskId × TaskResult)
  pub max_parallel : ℤ
  pub ready_queue : List TaskId
  pub in_flight : List TaskId  -- jobs that the pool has and that have not called back
  pub trace : List Effect  -- the latest first

unfoldable pub emit : Effect → Run → Run
emit e s = record s { trace = e ∷ s.trace }

unfoldable pub emit_if : Bool → Effect → Run → Run
emit_if b e s = if b then emit e s else s

unfoldable pub increment_running : Run → Run
increment_running s = record s { running = s.running +ℤ pos 1 }

unfoldable pub decrement_running : Run → Run
decrement_running s = record s { running = s.running -ℤ pos 1 }

unfoldable pub mark_failed : Run → Run
mark_failed s = record s { failed = true }

unfoldable pub set_node_status : TaskId → TaskStatus → Run → Run
set_node_status id st s =
    emit_if s.has_status_callback (status_changed id st)
      (record s { graph = update_node (make_key id) (set_status st) s.graph })

unfoldable pub set_task_results : TaskId → TaskResult → Run → Run
set_task_results id r s = record s { task_results = put id r s.task_results }

unfoldable pub finish : Bool → Run → Run
finish success s = emit_if s.has_finish_callback (dag_finished success) s

-- A context that has just been made, with the executor's members.
unfoldable pub new_run : DagConfig → DagGraph → Bool → Bool → Run
new_run config graph has_status_callback has_finish_callback = record {
  config = config;
  graph = graph;
  has_status_callback = has_status_callback;
  has_finish_callback = has_finish_callback;
  running = pos 0;
  failed = false;
  task_results = [];
  max_parallel = pos 4;
  ready_queue = [];
  in_flight = [];
  trace = [];
}
