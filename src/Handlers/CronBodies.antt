-- ===== src/Handlers/CronBodies.antt =====
-- server/src/handlers/cron_handler.cpp: what a request to make a job says that the job starts.
use task_hub.Dag.Builder.{DagTaskSpec}
use task_hub.Dag.Service.{array_member, object_member}
use task_hub.Dag.Types.{DagConfig, fail_fast, skip_downstream}
use task_hub.Json.{
  Json, Items, nil, cons, Fields, end, JsonCalls, array, null, string, object, member, value_with,
  is_number_integer, field, is_object,
}
use task_hub.Runner.ConfigJson.{priority_of_int}
use task_hub.Runner.Task.{
  TaskConfig, TaskPriority, TaskId, low, normal, high, critical, task_id, default_config,
  exec_type_of_name, to_lower,
}
use task_hub.Scheduler.Cron.{CronExpr, Tm, Parsed}
use task_hub.Prelude.{
  ℕ, pos, negsuc, Text, text, text_eq, ◌++◌, ◌||◌, Option, none, some, List, [], ◌∷◌, is_empty, map,
  ltb_ℤ, if◌then◌else◌, ◌>>=◌, Text-Eq, not,
}

-- What a job starts: a task, a DAG or a template.
pub data Payload : Type 0 where
  single_task : TaskConfig → Payload
  dag_job : List DagTaskSpec → DagConfig → Payload
  template_job : Text → Json → Payload

-- What the handlers use: the library, `get<uint32_t>`, `CronExpr::parse`, the calendar, the time in
-- nanoseconds, the printer of numbers, and the message of the exception that a body makes them throw.
pub record CronServer : Type 0 where
  pub json : JsonCalls
  pub parse : Text → Option Json
  pub get_uint : Json → Option ℕ
  pub parse_spec : Text → Parsed CronExpr
  pub localtime : ℕ → Tm
  pub now : ℕ
  pub print : ℕ → Text
  pub error_of : Text → Text

abbrev default_dag_config : DagConfig
default_dag_config = record {
  dag_id = [];
  name = [];
  fail_policy = skip_downstream;
  max_parallel = 4;
}

unfoldable pub values_of_fields : Fields → Items
values_of_fields end = nil
values_of_fields (field k v fs) = cons v (values_of_fields fs)

-- Iterating over an object goes through its values, and over any other value but an array through the
-- value itself, or nothing for null.
unfoldable pub values_of : Json → Items
values_of (array js) = js
values_of (object fs) = values_of_fields fs
values_of null = nil
values_of j = cons j nil

-- What comes of a payload: a refusal with its message, or the payload.
pub data Read : Type 0 where
  refuses : Text → Read
  reads : Payload → Read

unfoldable pub priority_of_name : Text → TaskPriority
unfolding to_lower text_eq
priority_of_name s =
    let t = map to_lower s in
    if text_eq t (text "low")
    then low
    else if text_eq t (text "high")
    then high
    else if text_eq t (text "critical")
    then critical
    else normal

module _ (s : CronServer) where
  -- A number is brought into range; one that cannot be read is normal.
  unfoldable pub priority_of_json : Option Json → TaskPriority
  priority_of_json (some (string name)) = priority_of_name name
  priority_of_json none = normal
  priority_of_json (some j) =
      if is_number_integer j
      then elim (s.json.get_int j) [
        | none ↦ normal
        | some i ↦
            priority_of_int
              (if ltb_ℤ i (negsuc 0) then negsuc 0 else if ltb_ℤ (pos 2) i then pos 2 else i)
      ]
      else normal

  -- `none` is an exception, here and below.
  unfoldable pub single_of_json : Text → Json → Option Payload
  single_of_json name t = do
    id ← value_with s.json.get_text (text "id") (text "task") t
    title ← value_with s.json.get_text (text "name") name t
    exec_type ← value_with s.json.get_text (text "exec_type") (text "Local") t
    command ← value_with s.json.get_text (text "exec_command") [] t
    timeout ← value_with s.json.get_int (text "timeout_ms") (pos 0) t
    retries ← value_with s.json.get_int (text "retry_count") (pos 0) t
    some (
        single_task (record default_config {
          id = task_id id [];
          name = title;
          exec_type = exec_type_of_name exec_type;
          exec_command = command;
          timeout_ms = if ltb_ℤ (pos 0) timeout then timeout else default_config.timeout_ms;
          retry_count = retries;
          priority = priority_of_json (member (text "priority") t);
        }))

  unfoldable pub deps_of_items : Items → Option (List TaskId)
  deps_of_items nil = some []
  deps_of_items (cons j js) = do
    d ← s.json.get_text j
    ds ← deps_of_items js
    some (task_id d [] ∷ ds)

  unfoldable pub spec_of_json : Text → Json → Option DagTaskSpec
  spec_of_json id t = do
    deps ← elim (member (text "deps") t) [ none ↦ some [] | some ds ↦ deps_of_items (values_of ds) ]
    name ← value_with s.json.get_text (text "name") id t
    timeout ← value_with s.json.get_int (text "timeout_ms") (pos 0) t
    retries ← value_with s.json.get_int (text "retry_count") (pos 0) t
    delay ← value_with s.json.get_int (text "retryDelay") (pos 1000) t
    exec_type ← value_with s.json.get_text (text "exec_type") (text "Local") t
    command ← value_with s.json.get_text (text "exec_command") [] t
    some (record {
      id = task_id id [];
      deps = deps;
      runner_cfg = record default_config {
        id = task_id id [];
        name = name;
        timeout_ms = timeout;
        retry_count = retries;
        retry_delay_ms = delay;
        exec_type = exec_type_of_name exec_type;
        exec_command = command;
      };
    })

  -- A task without an id is passed over.
  unfoldable pub specs_of_items : Items → Option (List DagTaskSpec)
  specs_of_items nil = some []
  specs_of_items (cons t ts) = do
    id ← value_with s.json.get_text (text "id") [] t
    first ← (if is_empty id then some [] else (do spec ← spec_of_json id t; some (spec ∷ [])))
    rest ← specs_of_items ts
    some (first ++ rest)

  unfoldable pub config_of_dag : Json → Option DagConfig
  config_of_dag dag = elim (member (text "config") dag) [
    | none ↦ some default_dag_config
    | some cfg ↦ (do
      policy ← value_with s.json.get_text (text "fail_policy") (text "SkipDownstream") cfg
      parallel ← value_with s.get_uint (text "max_parallel") 4 cfg
      some (record default_dag_config {
        fail_policy = if text_eq policy (text "FailFast") then fail_fast else skip_downstream;
        max_parallel = parallel;
      }))
  ]

  unfoldable pub read_dag : Json → Option Read
  read_dag dag = do
    cfg ← config_of_dag dag
    elim (array_member (text "tasks") dag) [
      | none ↦ some (refuses (text "Dag requires 'tasks' array"))
      | some ts ↦ (do
        specs ← specs_of_items ts
        some (
            if is_empty specs
            then refuses (text "Dag tasks is empty")
            else reads (dag_job specs cfg)))
    ]

  unfoldable pub read_template : Json → Option Read
  read_template tpl = do
    id ← value_with s.json.get_text (text "template_id") [] tpl
    params ← value_with some (text "params") (object end) tpl
    some (
        if is_empty id || not (is_object params)
        then refuses (text "template_id/params is required")
        else reads (template_job id params))

  unfoldable pub read_payload : Text → Text → Json → Option Read
  read_payload target name b =
      if text_eq target (text "Dag")
      then elim (object_member (text "dag") b) [
        | none ↦ some (refuses (text "Dag requires 'dag' object"))
        | some fs ↦ read_dag (object fs)
      ]
      else if text_eq target (text "Template")
      then elim (object_member (text "template") b) [
        | none ↦ some (refuses (text "Template requires 'template' object"))
        | some fs ↦ read_template (object fs)
      ]
      else elim (member (text "task") b) [
        | none ↦ some (refuses (text "SingleTask requires 'task' field"))
        | some t ↦ (do p ← single_of_json name t; some (reads p))
      ]
