-- ===== src/Dag/Types.antt =====
-- server/src/dag/dag_types.h, dag_node.h and dag_node.cpp: the configuration of a run, and a node.
-- A node's atomics are plain fields here: each handler that touches them is one step (Dag/Executor).
use task_hub.Prelude.{ℕ, Text, text, List, [], ◌∷◌, ◌++◌, ℤ, pos, ◌-ℤ◌}
use task_hub.Runner.Task.{TaskStatus, TaskId, task_id, TaskConfig, default_config}

pub data FailPolicy : Type 0 where
  fail_fast skip_downstream : FailPolicy

pub record DagConfig : Type 0 where
  pub dag_id : Text
  pub name : Text
  pub fail_policy : FailPolicy
  pub max_parallel : ℕ

pub record DagNode : Type 0 where
  pub id : TaskId
  pub dependencies : List TaskId
  pub downstream : List TaskId
  pub indegree : ℤ
  pub status : TaskStatus
  pub runner_cfg : TaskConfig

-- The constructor with the member initialisers.
unfoldable pub new_node : TaskId → DagNode
new_node id = record {
  id = id;
  dependencies = [];
  downstream = [];
  indegree = pos 0;
  status = TaskStatus.pending;
  runner_cfg = default_config;
}

unfoldable pub add_dependency : TaskId → DagNode → DagNode
add_dependency dep n = record n { dependencies = n.dependencies ++ dep ∷ [] }

unfoldable pub add_downstream : TaskId → DagNode → DagNode
add_downstream child n = record n { downstream = n.downstream ++ child ∷ [] }

unfoldable pub set_indegree : ℤ → DagNode → DagNode
set_indegree v n = record n { indegree = v }

-- `fetch_sub` gives the old value, and the method returns `old - 1`, the value just stored.
unfoldable pub decrement_indegree : DagNode → DagNode × ℤ
decrement_indegree n = let old = n.indegree in (record n { indegree = old -ℤ pos 1 }, old -ℤ pos 1)

unfoldable pub set_status : TaskStatus → DagNode → DagNode
set_status s n = record n { status = s }

-- The task's id and name are overwritten, so that logs point to the node; its run id is the task's.
unfoldable pub set_runner_config : TaskConfig → DagNode → DagNode
set_runner_config cfg n = record n {
  runner_cfg = record cfg {
    id = task_id n.id.value cfg.id.run_id;
    name = text "DAGNode_" ++ n.id.value;
  };
}
