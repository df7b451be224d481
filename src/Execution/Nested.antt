-- ===== src/Execution/Nested.antt =====
-- server/src/execution/dag_strategy.cpp and template_strategy.cpp: tasks that start a run of their
-- own. The run is the DAG service's.
pub mod Depth
use task_hub.Dag.Service.{ServiceCalls, DagResult, Mark, run_dag, run_dag_of_config, inject_run_id}
use task_hub.Execution.Context.{
  ExecutionContext, get, is_timeout, canceled_with, timed_out_with, failed_with, max_nesting_depth,
}
use task_hub.Execution.Remote.{Output, event}
use task_hub.Json.{
  Json, Fields, object, integer, string, end, set_field, value_with, field, find_field, null,
  JsonCalls,
}
use task_hub.Log.Buffer.{info, error}
use task_hub.Runner.ResultJson.{status_to_int}
use task_hub.Runner.Task.{TaskResult, TaskStatus, default_result, status_name}
use task_hub.Template.Render.{render}
use task_hub.Template.Renderer.{Printers, done, failed}
use task_hub.Template.Types.{TaskTemplate, ParamMap}
use task_hub.Prelude.{
  ℕ, pos, Text, text, Text-Eq, ◌++◌, ◌-◌, ◌/◌, Bool, Option, none, some, List, [], ◌∷◌, put,
  is_empty, leb_ℤ, if◌then◌else◌, ◌>>=◌,
}

-- What a strategy reads: the cancel flag and the clock when it starts, and the clock before and
-- after the run.
pub record Readings : Type 0 where
  pub is_canceled : Bool
  pub checked_at : ℕ
  pub start_at : ℕ
  pub end_at : ℕ

-- What a strategy does: its result, unless an exception leaves it, what goes to the database, and
-- its events.
pub record Executed : Type 0 where
  pub result : Option TaskResult
  pub marks : List Mark
  pub outputs : List Output

abbrev pub only : TaskResult → Executed
only r = record { result = some r; marks = []; outputs = [] }

abbrev pub broke : List Output → Executed
broke outs = record { result = none; marks = []; outputs = outs }

-- The result of a run.
abbrev pub result_of_run : ℕ → ℕ → List (Text × Text) → DagResult → TaskResult
result_of_run started ended meta r = record default_result {
  status = if r.success then TaskStatus.success else TaskStatus.failed;
  message = r.message;
  duration_ms = pos ((ended - started) / 1000000);
  exit_code = pos (if r.success then 0 else 1);
  metadata = meta;
}

-- The guards that both strategies begin with, with the names that their messages have.
unfoldable pub refused_before : Text → Text → ExecutionContext → Readings → Option TaskResult
refused_before name too_deep ctx now =
    if now.is_canceled
    then some (canceled_with (name ++ text ": canceled before start"))
    else if is_timeout now.checked_at ctx
    then some (timed_out_with (name ++ text ": timeout before start"))
    else if leb_ℤ max_nesting_depth ctx.nesting_depth
    then some (failed_with (too_deep ++ text " nesting depth exceeds limit (10)"))
    else none

abbrev pub dag_guards : ExecutionContext → Readings → Option TaskResult
dag_guards = refused_before (text "DagExecution") (text "DAG")

abbrev pub template_guards : ExecutionContext → Readings → Option TaskResult
template_guards = refused_before (text "TemplateExecution") (text "TemplateExecution:")

module _ (c : ServiceCalls) (ctx : ExecutionContext) where
  unfoldable pub run_id_of : Text
  run_id_of =
      let given = get (text "run_id") [] ctx in if is_empty given then c.new_run_id else given

  abbrev depth_text : Text
  depth_text = text ", nestingDepth=" ++ c.texts.to_string ctx.nesting_depth

  abbrev end_text : Text → TaskResult → Text
  end_text name r =
      name
      ++ text " end: status="
      ++ c.texts.to_string (status_to_int r.status)
      ++ text ", durationMs="
      ++ c.texts.to_string r.duration_ms

  -- A run either succeeds or fails, so that the other levels of the source are not reached.
  abbrev end_event : Text → TaskResult → List (Text × Text) → Output
  end_event message r fields =
      event (elim r.status [ TaskStatus.failed ↦ error | _ ↦ info ]) message r.duration_ms (pos 1)
        (put (text "status") (status_name r.status) fields)

  unfoldable pub execute_dag : Readings → Executed
  execute_dag now = elim (dag_guards ctx now) [
    | some r ↦ only r
    | none ↦
        let run_id = run_id_of in
        let start =
          event info (text "DagExecution start: runId=" ++ run_id ++ depth_text) (pos 0) (pos 1)
            [] in
        elim (run_dag_of_config c ctx.config run_id) [
          | none ↦ broke (start ∷ [])
          | some (d, marks) ↦
              let r = result_of_run now.start_at now.end_at (put (text "run_id") run_id []) d in
              let said = if is_empty r.message then [] else text ", message=" ++ r.message in
              record {
                result = some r;
                marks = marks;
                outputs =
                    start
                    ∷ end_event (end_text (text "DagExecution") r ++ said) r
                        (put (text "run_id") run_id [])
                    ∷ [];
              }
        ]
  ]

-- `body[key] = value` where the key is missing.
unfoldable pub set_missing : Text → Json → Fields → Fields
set_missing k v fs = elim (find_field k fs) [ none ↦ set_field k v fs | some w ↦ fs ]

unfoldable pub set_full : Text → Text → Fields → Fields
set_full k s fs = if is_empty s then fs else set_field k (string s) fs

-- The parameters of a template are an object, or a text of one; an empty text is none.
unfoldable pub parse_template_params : (Text → Option Json) → Text → Option Fields
parse_template_params parse raw =
    if is_empty raw then some end else elim (parse raw) [ some (object fs) ↦ some fs | _ ↦ none ]

unfoldable pub params_of_json : Fields → ParamMap
params_of_json end = []
params_of_json (field k v fs) = put k v (params_of_json fs)

-- What the strategy of templates uses besides: the store, and what the renderer uses.
pub record TemplateCalls : Type 0 where
  pub service : ServiceCalls
  pub template_of : Text → Option TaskTemplate
  pub print : Printers
  pub what : Json → Text

abbrev pub config_of : Fields → Fields
config_of fs = elim (find_field (text "config") fs) [ some (object cs) ↦ cs | _ ↦ end ]

-- A configuration without a name takes the one of the body.
unfoldable pub config_with_name : JsonCalls → Text → Fields → Fields → Option Fields
config_with_name c default config b = elim (find_field (text "name") config) [
  | some v ↦ some config
  | none ↦ (do
    title ← value_with c.get_text (text "name") default (object b)
    some (set_field (text "name") (string title) config))
]

module _ (c : TemplateCalls) (ctx : ExecutionContext) where
  unfoldable pub config_of_rendered : Text → Fields → Fields
  config_of_rendered id fs = set_full (text "parent_task_id") ctx.config.id.value (
      set_full (text "parent_run_id") ctx.config.id.run_id
        (set_field (text "template_id") (string id) (config_of fs)))

  unfoldable pub named_body : Text → Text → Fields → Fields
  named_body id name fs = set_missing (text "name") (string name) (
      set_field (text "_nesting_depth") (integer ctx.nesting_depth)
        (set_field (text "config") (object (config_of_rendered id fs)) fs))

  -- The rendered template as the body of a run: where it comes from, and how deep it is. `none` is an
  -- exception.
  unfoldable pub body_of_rendered : Text → Text → Fields → Option Fields
  body_of_rendered id name fs = do
    let b = named_body id name fs
    config ← config_with_name c.service.json name (config_of_rendered id fs) b
    some (set_field (text "config") (object config) b)

  unfoldable pub run_rendered : Readings → Text → Text → Fields → Executed
  run_rendered now id name fs =
      let run_id = run_id_of c.service ctx in
      let ids = put (text "template_id") id (put (text "run_id") run_id []) in
      let start =
        event info
          (text "TemplateExecution start: templateId="
            ++ id
            ++ text ", runId="
            ++ run_id
            ++ depth_text c.service ctx)
          (pos 0) (pos 1) ids in
      elim (body_of_rendered id name fs >>= inject_run_id run_id) [
        | none ↦ broke []
        | some b ↦ elim (run_dag c.service (object b) (text "task_template") run_id) [
          | none ↦ broke (start ∷ [])
          | some (d, marks) ↦
              let r = result_of_run now.start_at now.end_at ids d in
              record {
                result = some r;
                marks = marks;
                outputs =
                    start
                    ∷ end_event c.service ctx (end_text c.service ctx (text "TemplateExecution") r)
                        r ids
                    ∷ [];
              }
        ]
      ]

  unfoldable pub render_and_run : Readings → Text → Fields → Executed
  render_and_run now id params = elim (c.template_of id) [
    | none ↦ only (failed_with (text "TemplateExecution: template not found"))
    | some t ↦ elim (render c.print c.service.json c.what t (params_of_json params)) [
      | failed e ↦ only (failed_with e)
      | done (object fs) ↦ run_rendered now id t.name fs
      | done null ↦ run_rendered now id t.name end
      | done _ ↦ broke []
    ]
  ]

  unfoldable pub execute_template : Readings → Executed
  execute_template now = elim (template_guards ctx now) [
    | some r ↦ only r
    | none ↦
        let id = get (text "template_id") [] ctx in
        let first = get (text "params") [] ctx in
        let raw = if is_empty first then get (text "template_params_json") [] ctx else first in
        if is_empty id
        then only (failed_with (text "TemplateExecution: missing template_id"))
        else elim (parse_template_params c.service.texts.parse raw) [
          | none ↦ only (failed_with (text "TemplateExecution: invalid params"))
          | some params ↦ render_and_run now id params
        ]
  ]
