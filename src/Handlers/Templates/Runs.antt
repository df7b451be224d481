-- ===== src/Handlers/Templates/Runs.antt =====
-- server/src/handlers/template_handler.cpp: the handlers that render a template, and that run what
-- they have rendered, at once or as a job of the DAG thread pool.
pub mod Accepted
use task_hub.Execution.Remote.{text_member}
use task_hub.Dag.Service.{DagResult, Mark, array_member, object_member, inject_run_id, run_dag}
use task_hub.Execution.Nested.{params_of_json, set_missing, config_of}
use task_hub.Handlers.Http.{Request, Response, respond_ok, respond_error}
use task_hub.Handlers.Templates.{TemplateServer, json_calls, parse, fail, internal_error}
use task_hub.Json.{
  Json, Items, nil, cons, Fields, end, array, boolean, integer, string, object, object_of, member,
  value_with, set_field,
}
use task_hub.Runner.ResultJson.{task_result_to_json}
use task_hub.Runner.Task.{TaskId, TaskId-Eq, TaskResult, TaskStatus}
use task_hub.Template.Render.{render}
use task_hub.Template.Renderer.{done, failed}
use task_hub.Template.Types.{TaskTemplate}
use task_hub.Prelude.{
  pos, Text, text, Text-Eq, ◌++◌, Bool, true, false, Option, none, some, List, [], ◌∷◌, find,
  is_empty, length, if◌then◌else◌, ◌>>=◌,
}

-- `RenderResult::to_json`.
abbrev pub render_result_json : Bool → Text → Json → Json
render_result_json ok error rendered =
    object_of
      ((text "ok", boolean ok) ∷ (text "error", string error) ∷ (text "rendered", rendered) ∷ [])

-- The entry of a task in the list of an answer, if it has a text id.
unfoldable pub task_entry : Json → Option Json
task_entry j = do
  id ← text_member (text "id") j
  some (object_of ((text "logical", string id) ∷ (text "task_id", string id) ∷ []))

unfoldable pub task_entries : Items → Option Items
task_entries nil = some nil
task_entries (cons j js) = do entry ← task_entry j; rest ← task_entries js; some (cons entry rest)

-- The tasks of a rendered template: a list, or one task, or the template itself. `none` is a task
-- without a text id.
unfoldable pub task_list_of : Fields → Option Items
task_list_of fs = elim (array_member (text "tasks") (object fs)) [
  | some js ↦ task_entries js
  | none ↦ (do
    entry ←
        task_entry (elim (object_member (text "task") (object fs)) [
          | some ts ↦ object ts
          | none ↦ object fs
        ])
    some (cons entry nil))
]

-- `DagResult::to_json`.
unfoldable pub nodes_json : List TaskId → List (TaskId × TaskResult) → Items
nodes_json [] results = nil
nodes_json (id ∷ ids) results =
    let rest = nodes_json ids results in
    elim (find id results) [
      | none ↦ rest
      | some r ↦
          cons
            (object_of (
              (text "id", string id.value)
                ∷ (if is_empty id.run_id then [] else (text "run_id", string id.run_id) ∷ [])
              ++ (text "result", task_result_to_json r) ∷ []))
            rest
    ]

abbrev pub is_success : TaskStatus → Bool
is_success TaskStatus.success = true
is_success _ = false

abbrev pub is_failure : TaskStatus → Bool
is_failure TaskStatus.failed = true
is_failure TaskStatus.timeout = true
is_failure _ = false

abbrev pub is_skipped : TaskStatus → Bool
is_skipped TaskStatus.skipped = true
is_skipped _ = false

unfoldable pub ids_with : (TaskStatus → Bool) → List (TaskId × TaskResult) → Items
ids_with p [] = nil
ids_with p ((id, r) ∷ rs) =
    let rest = ids_with p rs in if p r.status then cons (string id.value) rest else rest

unfoldable pub run_answer : DagResult → Text → Json
run_answer d run_id = object_of (
    (text "ok", boolean d.success)
    ∷ (text "message", string d.message)
    ∷ (text "nodes", array (nodes_json d.task_ids d.task_results))
    ∷ (text "run_id", string run_id)
    ∷ (
      text "summary",
      object_of (
          (text "total", integer (pos (length d.task_results)))
          ∷ (text "success", array (ids_with is_success d.task_results))
          ∷ (text "failed", array (ids_with is_failure d.task_results))
          ∷ (text "skipped", array (ids_with is_skipped d.task_results))
          ∷ []),
    )
    ∷ [])

-- What comes of a request to render a template: an answer, an exception, or the text with the template
-- and with what the request has for a run id.
pub data Asked : Type 0 where
  refused : Response → Asked
  broken : Json → Asked
  rendered : Text → TaskTemplate → Json → Json → Asked

module _ (s : TemplateServer) where
  -- The id and the parameters of a request. `none` is an exception, here and below.
  unfoldable pub template_request : Json → Option (Text × Json)
  template_request j = do
    id ← value_with (json_calls s).get_text (text "template_id") [] j
    params ← value_with some (text "params") (object end) j
    some (id, params)

  unfoldable pub render_named :
      (TaskTemplate → Fields → Text → Response) → Json → Text → Fields → Asked
  render_named refuse j id params = elim (s.calls.template_of id) [
    | none ↦ refused (fail s (pos 404) (text "template not found"))
    | some t ↦ elim (render s.calls.print (json_calls s) s.calls.what t (params_of_json params)) [
      | failed e ↦ refused (refuse t params e)
      | done r ↦ rendered id t r j
    ]
  ]

  -- The steps that the three handlers share, and the answer where the renderer refuses.
  unfoldable pub ask : (TaskTemplate → Fields → Text → Response) → Request → Asked
  ask refuse req = elim (parse s req.body) [
    | none ↦ refused (fail s (pos 400) (text "bad request"))
    | some j ↦ elim (template_request j) [
      | none ↦ broken j
      | some (id, object params) ↦
          if is_empty id
          then refused (fail s (pos 400) (text "missing required fields"))
          else render_named refuse j id params
      | some (id, _) ↦ refused (fail s (pos 400) (text "missing required fields"))
    ]
  ]

  -- With the result of the rendering, as a text in the message.
  abbrev render_refusal : TaskTemplate → Fields → Text → Response
  render_refusal t params e =
      respond_error (json_calls s) (pos 400)
        ((json_calls s).dump (
          object_of (
            (text "ok", boolean false)
            ∷ (text "error", string e)
            ∷ (text "data", render_result_json false e (s.made_so_far t (params_of_json params)))
            ∷ [])))
        (pos 400)

  abbrev pub short_refusal : TaskTemplate → Fields → Text → Response
  short_refusal t params e = respond_error (json_calls s) (pos 400) e (pos 200)

  abbrev pub run_error : Json → Response
  run_error j = fail s (pos 500) (s.error_of j)

  unfoldable pub render_template : Request → Response
  render_template req = elim (ask render_refusal req) [
    | refused r ↦ r
    | broken j ↦ internal_error s
    | rendered id t r j ↦
        respond_ok (json_calls s)
          (object_of ((text "ok", boolean true) ∷ (text "data", render_result_json true [] r) ∷ []))
  ]

  unfoldable pub requested_run_id : Json → Option Text
  requested_run_id j = do
    given ← value_with (json_calls s).get_text (text "run_id") [] j
    some (if is_empty given then s.calls.service.new_run_id else given)

  -- The rendered template as the body of a run.
  unfoldable pub run_body : Text → Text → Fields → Option Fields
  run_body id name fs = do
    let config = set_field (text "template_id") (string id) (config_of fs)
    let named =
        set_missing (text "name") (string name) (set_field (text "config") (object config) fs)
    title ← value_with (json_calls s).get_text (text "name") name (object named)
    some (set_field (text "config") (object (set_field (text "name") (string title) config)) named)

  -- The run id and the body of a run. What is rendered is an object, or else the assignments throw.
  unfoldable pub prepared : Text → TaskTemplate → Json → Json → Option (Text × Fields)
  prepared id t (object fs) j = do
    run_id ← requested_run_id j
    b ← run_body id t.name fs
    some (run_id, b)
  prepared id t _ j = none

  abbrev no_task_id : Response
  no_task_id = fail s (pos 400) (text "task id is required")

  unfoldable pub start_run : Json → Text → Fields → Response × List Mark
  start_run j run_id b =
      elim (inject_run_id run_id b >>= λ (b' : Fields).
      run_dag s.calls.service (object b') (text "template") run_id) [
        | none ↦ (run_error j, [])
        | some (d, marks) ↦ (
          if d.success
              then respond_ok (json_calls s) (run_answer d run_id)
              else respond_error (json_calls s) (pos 500)
                  ((json_calls s).dump (
                    object_of ((text "ok", boolean false) ∷ (text "error", string d.message) ∷ [])))
                  (pos 500),
          marks,
        )
      ]

  unfoldable pub run_template : Request → Response × List Mark
  run_template req = elim (ask render_refusal req) [
    | refused r ↦ (r, [])
    | broken j ↦ (run_error j, [])
    | rendered id t r j ↦ elim (prepared id t r j) [
      | none ↦ (run_error j, [])
      | some (run_id, b) ↦ elim (task_list_of b) [
        | none ↦ (no_task_id, [])
        | some tasks ↦ start_run j run_id b
      ]
    ]
  ]

  -- The answer, and the body and the run id of the job that the pool is given, if any.
  unfoldable pub run_template_async : Request → Response × Option (Fields × Text)
  run_template_async req = elim (ask short_refusal req) [
    | refused r ↦ (r, none)
    | broken j ↦ (run_error j, none)
    | rendered id t r j ↦ elim (prepared id t r j) [
      | none ↦ (run_error j, none)
      | some (run_id, b) ↦ elim (task_list_of b) [
        | none ↦ (no_task_id, none)
        | some tasks ↦ elim (inject_run_id run_id b) [
          | none ↦ (run_error j, none)
          | some b' ↦ (
            respond_ok (json_calls s)
                (object_of ((text "run_id", string run_id) ∷ (text "task_ids", array tasks) ∷ [])),
            some (b', run_id),
          )
        ]
      ]
    ]
  ]
