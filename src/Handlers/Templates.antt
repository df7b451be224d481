-- ===== src/Handlers/Templates.antt =====
-- server/src/handlers/template_handler.cpp: templates are created, read, removed, rendered and run.
use task_hub.Dag.Service.{
  ServiceCalls, DagResult, Mark, array_member, object_member, inject_run_id, run_dag,
}
use task_hub.Execution.Nested.{TemplateCalls, params_of_json, set_missing}
use task_hub.Handlers.Http.{
  Request, Response, Answer, answered, thrown, respond_ok, respond_error, bad_request,
}
use task_hub.Json.{
  Json, Items, nil, cons, Fields, end, JsonCalls, array, boolean, integer, null, string, object,
  object_of, member, value_with, is_null, find_field, set_field,
}
use task_hub.Template.Render.{render}
use task_hub.Template.Renderer.{Rendered, done, failed}
use task_hub.Template.Store.{Table, Store, create, get, remove, list}
use task_hub.Template.Types.{
  TaskTemplate, ParamSchema, make_param_schema, template_to_json, ParamMap,
}
use task_hub.Prelude.{
  ℕ, ℤ, pos, Text, text, Text-Eq, ◌++◌, ◌||◌, Bool, true, false, not, Option, none, some, List, [],
  ◌∷◌, is_empty, if◌then◌else◌, ◌>>=◌,
}
pub mod Runs

-- What these handlers use: what the template strategy uses, the message of the exception that a body
-- makes a handler throw, and what a rendering that has failed has made so far.
pub record TemplateServer : Type 0 where
  pub calls : TemplateCalls
  pub error_of : Json → Text
  pub made_so_far : TaskTemplate → ParamMap → Json

abbrev pub error_json : Text → Text
error_json e = text "{\"ok\":false,\"error\":\"" ++ e ++ text "\"}"

unfoldable pub templates_to_json : List TaskTemplate → Items
templates_to_json [] = nil
templates_to_json (t ∷ ts) = cons (template_to_json t) (templates_to_json ts)

module _ (s : TemplateServer) where
  abbrev pub json_calls : JsonCalls
  json_calls = s.calls.service.json

  abbrev pub parse : Text → Option Json
  parse = s.calls.service.texts.parse

  -- The status of the answer is 200 here: only the code in its body tells of the error.
  abbrev pub fail : ℤ → Text → Response
  fail code e = respond_error json_calls code (error_json e) (pos 200)

  abbrev pub internal_error : Response
  internal_error = fail (pos 500) (text "internal server error")

  -- `none` is an exception, here and below.
  unfoldable pub template_of_json : Json → Option (Option TaskTemplate)
  template_of_json j = do
    id ← value_with json_calls.get_text (text "template_id") [] j
    name ← value_with json_calls.get_text (text "name") [] j
    description ← value_with json_calls.get_text (text "description") [] j
    task ← value_with some (text "task_json_template") (object end) j
    schema_json ← value_with some (text "schema") (object end) j
    if is_empty id || is_empty name || is_null task then some none else (do
      schema ← make_param_schema json_calls schema_json
      some (
          some (record {
            template_id = id;
            name = name;
            description = description;
            task_json_template = task;
            schema = schema;
          })))

  module _ {D : Type 0} (t : Table D) where
    unfoldable pub create_template : Request → Store D → Response × Store D
    create_template req st = elim (parse req.body) [
      | none ↦ (fail (pos 400) (text "bad request"), st)
      | some j ↦ elim (template_of_json j) [
        | none ↦ (internal_error, st)
        | some none ↦ (fail (pos 400) (text "missing required fields"), st)
        | some (some x) ↦
            let (ok, st') = create json_calls parse t x st in
            (
              if ok
                  then respond_ok json_calls (
                      object_of (
                        (text "ok", boolean true)
                        ∷ (text "template_id", string x.template_id)
                        ∷ []))
                  else fail (pos 500) (text "template id already exists"),
              st',
            )
      ]
    ]

    unfoldable pub get_template : Text → Store D → Response × Store D
    get_template id st =
        let (found, st') = get json_calls parse t id st in
        let answer : Response = elim found [
          | none ↦ internal_error
          | some none ↦ fail (pos 404) (text "template not found")
          | some (some x) ↦
              respond_ok json_calls
                (object_of ((text "ok", boolean true) ∷ (text "data", template_to_json x) ∷ []))
        ] in
        (answer, st')

    unfoldable pub list_templates : Store D → Response
    list_templates st = elim (list json_calls parse t st) [
      | none ↦ internal_error
      | some ts ↦
          respond_ok json_calls (
            object_of
              ((text "ok", boolean true) ∷ (text "data", array (templates_to_json ts)) ∷ []))
    ]

    unfoldable pub delete_template : Text → Store D → Response × Store D
    delete_template id st =
        let (ok, st') = remove json_calls parse t id st in
        (
          if ok
              then respond_ok json_calls (object_of ((text "ok", boolean true) ∷ []))
              else fail (pos 404) (text "template not found"),
          st',
        )
