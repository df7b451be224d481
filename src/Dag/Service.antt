-- ===== src/Dag/Service.antt =====
-- server/src/dag/dag_service.cpp, dag_run_utils.h and DagConfig::from_json of dag_types.h: from a
-- JSON body to a run of its DAG. What the executor makes of a built graph is a parameter (its runs
-- are those of Dag/Executor), and what goes to the database is listed in order.
use task_hub.Dag.Builder.{DagTaskSpec, DagBuilder, ValidateError, add_task, build}
use task_hub.Dag.Graph.{DagGraph}
use task_hub.Dag.Types.{DagConfig, FailPolicy, fail_fast, skip_downstream}
use task_hub.Dag.Validate.{validate}
use task_hub.Execution.Context.{TextCalls}
use task_hub.Execution.DagBody.{extract_dag_body, body, failed}
use task_hub.Json.{
  Json, Items, nil, cons, Fields, JsonCalls, array, object, integer, string, set_field, member,
  value_with, is_number, null, end,
}
use task_hub.Runner.ConfigJson.{parse_task_config_from_req}
use task_hub.Runner.Task.{
  TaskConfig, TaskId, TaskResult, TaskStatus, task_id, is_ok, default_result,
}
use task_hub.Prelude.{
  ℕ, ℤ, pos, ◌+ℤ◌, Text, text, Text-Eq, ◌++◌, Bool, true, false, Option, none, some, List, [], ◌∷◌,
  find, put, map, is_empty, text_eq, if◌then◌else◌, ◌>>=◌, ◌+◌,
}
pub mod Nesting

-- What the repositories of runs and of tasks are told. A finished run has its counts: all the tasks,
-- those that succeeded, those that failed and those that were skipped.
pub data Mark : Type 0 where
  insert_run : Text → Json → Text → Mark
  upsert_task : Text → Json → Mark
  finish_run : Text → ℤ → ℕ → ℕ → ℕ → ℕ → Text → Mark

pub record DagResult : Type 0 where
  pub success : Bool
  pub message : Text
  pub task_ids : List TaskId
  pub task_results : List (TaskId × TaskResult)

-- The member initialisers, and a message.
abbrev pub dag_failed : Text → DagResult
dag_failed message = record { success = false; message = message; task_ids = []; task_results = [] }

-- What the service uses: conversions of JSON and of texts, `get<uint32_t>`, the text of the exception
-- that a list of tasks makes the conversions throw, the texts of the builder's errors, a new run id,
-- and the executor.
pub record ServiceCalls : Type 0 where
  pub texts : TextCalls
  pub json : JsonCalls
  pub get_uint : Json → Option ℕ
  pub task_error : Items → Text
  pub error_text : ValidateError → Text
  pub new_run_id : Text
  pub execute : DagConfig → DagGraph → TaskResult

unfoldable pub upsert_tasks : Text → Items → List Mark
upsert_tasks run_id nil = []
upsert_tasks run_id (cons j js) = upsert_task run_id j ∷ upsert_tasks run_id js

-- A member that is an array, or an object.
abbrev pub items_of_json : Json → Option Items
items_of_json (array js) = some js
items_of_json _ = none

abbrev pub fields_of_json : Json → Option Fields
fields_of_json (object fs) = some fs
fields_of_json _ = none

unfoldable pub array_member : Text → Json → Option Items
array_member k j = member k j >>= items_of_json

unfoldable pub object_member : Text → Json → Option Fields
object_member k j = member k j >>= fields_of_json

-- The tasks of a list, or the one task, or the body itself if it has an id.
unfoldable pub persist_run_and_tasks : Text → Json → Text → List Mark
persist_run_and_tasks run_id b source =
    insert_run run_id b source ∷ elim (array_member (text "tasks") b) [
      | some js ↦ upsert_tasks run_id js
      | none ↦ elim (object_member (text "task") b) [
        | some fs ↦ upsert_task run_id (object fs) ∷ []
        | none ↦ elim (member (text "id") b) [ some v ↦ upsert_task run_id b ∷ [] | none ↦ [] ]
      ]
    ]

-- `injectRunId`: each task, or the one task, or the body gets the run id. A task that is neither an
-- object nor null throws.
unfoldable pub inject_into_task : Text → Json → Option Json
inject_into_task run_id (object fs) = some (object (set_field (text "run_id") (string run_id) fs))
inject_into_task run_id null = some (object (set_field (text "run_id") (string run_id) end))
inject_into_task run_id j = none

unfoldable pub inject_into_items : Text → Items → Option Items
inject_into_items run_id nil = some nil
inject_into_items run_id (cons j js) = do
  first ← inject_into_task run_id j
  rest ← inject_into_items run_id js
  some (cons first rest)

unfoldable pub inject_run_id : Text → Fields → Option Fields
inject_run_id run_id fs = elim (array_member (text "tasks") (object fs)) [
  | some js ↦ (do
    items ← inject_into_items run_id js
    some (set_field (text "tasks") (array items) fs))
  | none ↦ elim (object_member (text "task") (object fs)) [
    | some ts ↦
        some (set_field (text "task") (object (set_field (text "run_id") (string run_id) ts)) fs)
    | none ↦ some (set_field (text "run_id") (string run_id) fs)
  ]
]

unfoldable pub count_items : Items → ℕ
count_items nil = 0
count_items (cons j js) = count_items js + 1

-- The tasks of a body: a list of them, or the one task.
unfoldable pub tasks_of_body : Json → Option Items
tasks_of_body b = elim (array_member (text "tasks") b) [
  | some js ↦ some js
  | none ↦ elim (object_member (text "task") b) [
    | some fs ↦ some (cons (object fs) nil)
    | none ↦ none
  ]
]

-- Within a run, a description and its dependencies bear its run id.
unfoldable pub place_in_run : Text → DagTaskSpec → DagTaskSpec
place_in_run run_id spec = if is_empty run_id then spec else record spec {
  id = task_id spec.id.value run_id;
  deps = map (λ (d : TaskId). task_id d.value run_id) spec.deps;
}

unfoldable pub add_all : Text → List DagTaskSpec → DagBuilder → DagBuilder
add_all run_id [] b = b
add_all run_id (s ∷ ss) b = add_all run_id ss (add_task (place_in_run run_id s) b)

module _ (c : ServiceCalls) where
  -- `none` is an exception, here and below.
  unfoldable pub config_member : Json → Option DagConfig
  config_member cfg = do
    policy ← value_with c.json.get_text (text "fail_policy") (text "SkipDownstream") cfg
    parallel ← value_with c.get_uint (text "max_parallel") 4 cfg
    name ← value_with c.json.get_text (text "name") [] cfg
    some (record {
      dag_id = [];
      name = name;
      fail_policy = if text_eq policy (text "FailFast") then fail_fast else skip_downstream;
      max_parallel = parallel;
    })

  abbrev configured : Json → Option DagConfig
  configured b = elim (member (text "config") b) [
    | some (object fs) ↦ config_member (object fs)
    | _ ↦ some (record { dag_id = []; name = []; fail_policy = skip_downstream; max_parallel = 4 })
  ]

  unfoldable pub dag_config_from_json : Json → Text → Option DagConfig
  dag_config_from_json b fallback = do
    cfg ← configured b
    name ←
        (if is_empty cfg.name
          then value_with c.json.get_text (text "name") fallback b
          else some cfg.name)
    some (record cfg { name = name })

  -- A number that a body has under the key of the depth.
  unfoldable pub parent_depth : Json → Option ℤ
  parent_depth b = elim (member (text "_nesting_depth") b) [
    | none ↦ some (pos 0)
    | some v ↦ if is_number v then c.json.get_int v else some (pos 0)
  ]

  unfoldable pub deps_of_items : Text → Items → Option (List TaskId)
  deps_of_items run_id nil = some []
  deps_of_items run_id (cons j js) = do
    value ← c.json.get_text j
    rest ← deps_of_items run_id js
    some (task_id value run_id ∷ rest)

  unfoldable pub deps_of_task : Text → Json → Option (List TaskId)
  deps_of_task run_id j = elim (member (text "deps") j) [
    | some (array js) ↦ deps_of_items run_id js
    | _ ↦ some []
  ]

  unfoldable pub spec_of_json : Text → ℤ → Json → Option DagTaskSpec
  spec_of_json run_id depth j = do
    parsed ← parse_task_config_from_req c.json j
    deps ← deps_of_task run_id j
    let cfg = record parsed {
      id = task_id parsed.id.value run_id;
      exec_params = put (text "_nesting_depth") (c.texts.to_string depth) parsed.exec_params;
    }
    some (record { id = cfg.id; deps = deps; runner_cfg = cfg })

  unfoldable pub specs_of_items : Text → ℤ → Items → Option (List DagTaskSpec)
  specs_of_items run_id depth nil = some []
  specs_of_items run_id depth (cons j js) = do
    spec ← spec_of_json run_id depth j
    rest ← specs_of_items run_id depth js
    some (spec ∷ rest)

  -- Building, validating and executing.
  unfoldable pub run_specs : List DagTaskSpec → DagConfig → Text → TaskResult
  run_specs specs cfg run_id =
      let builder = add_all run_id specs [] in
      let checked = validate builder in
      if checked.ok then c.execute cfg (build builder) else record default_result {
        status = TaskStatus.failed;
        message = c.error_text checked.error_message;
      }

  -- The descriptions of the run, if it comes to be one.
  unfoldable pub specs_of_body : Text → Json → Option (List DagTaskSpec)
  specs_of_body run_id b = do
    js ← tasks_of_body b
    depth ← parent_depth b
    specs_of_items run_id (depth +ℤ pos 1) js

  unfoldable pub run_tasks :
      Text → Json → DagConfig → Items → List Mark → Option (DagResult × List Mark)
  run_tasks run_id b cfg js marks = do
    depth ← parent_depth b
    elim (specs_of_items run_id (depth +ℤ pos 1) js) [
      | none ↦
          let message = text "parse task failed: " ++ c.task_error js in
          some (
            dag_failed message,
            marks ++ finish_run run_id (pos 2) (count_items js) 0 (count_items js) 0 message ∷ [],
          )
      | some specs ↦
          let r = run_specs specs (record cfg { dag_id = run_id }) run_id in
          some (record (dag_failed r.message) { success = is_ok r.status }, marks)
    ]

  -- `runDag` on a body, its source and a run id, which may be empty.
  unfoldable pub run_dag : Json → Text → Text → Option (DagResult × List Mark)
  run_dag b source given = do
    let run_id = if is_empty given then c.new_run_id else given
    let marks = persist_run_and_tasks run_id b source
    cfg ← dag_config_from_json b []
    elim (tasks_of_body b) [
      | none ↦
          let message = text "missing or invalid tasks array or object" in
          some (dag_failed message, marks ++ finish_run run_id (pos 2) 0 0 0 0 message ∷ [])
      | some js ↦ run_tasks run_id b cfg js marks
    ]

  -- The depth goes from the parameters of a task to the body.
  unfoldable pub body_with_depth : TaskConfig → Fields → Fields
  body_with_depth cfg fs = elim (find (text "_nesting_depth") cfg.exec_params) [
    | none ↦ fs
    | some s ↦ elim (c.texts.stoi s) [
      | none ↦ fs
      | some depth ↦ set_field (text "_nesting_depth") (integer depth) fs
    ]
  ]

  -- `runDag` on the configuration of a task.
  unfoldable pub run_dag_of_config : TaskConfig → Text → Option (DagResult × List Mark)
  run_dag_of_config cfg run_id = elim (extract_dag_body c.texts cfg) [
    | failed e ↦ some (dag_failed (text "extractDagBody failed: " ++ e), [])
    | body fs ↦ run_dag (object (body_with_depth cfg fs)) (text "execution") run_id
  ]
