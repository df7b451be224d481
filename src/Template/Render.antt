-- ===== src/Template/Render.antt =====
-- server/src/template/template_renderer.cpp: `render`, from the parameters to the checked task. What
-- a failed result holds besides its error is left out.
use task_hub.Runner.ConfigJson.{task_of_request, parse_task_config_from_req}
use task_hub.Template.Types.{TaskTemplate, ParamMap}
use task_hub.Template.Validator.{ValidationError, validate_and_resolve}
use task_hub.Prelude.{
  ℕ, ◌≡◌, ◌≢◌, ◌++◌, map, List, [], ◌∷◌, is_empty, ◌||◌, if◌then◌else◌, Text, text_eq, Bool, text,
  true, none, some, false, arith, Option,
}
use task_hub.Json.{string, Json, JsonCalls, member, array}
use task_hub.Runner.Task.{TaskConfig, dag, template, exec_type_of_name, to_lower}
use task_hub.Template.Renderer.{Rendered, Printers, render_node, done, failed, ◌>>=◌}
pub mod Checked

unfoldable pub error_text : List ValidationError → Text
error_text [] = []
error_text (e ∷ []) = e.field ++ (text ": " ++ e.message)
error_text (e ∷ d ∷ es) =
    e.field ++ (text ": " ++ (e.message ++ (text "; " ++ error_text (d ∷ es))))

-- A template of a DAG is not checked further.
unfoldable pub has_tasks : Json → Bool
has_tasks j = elim (member (text "tasks") j) [ some (array xs) ↦ true | _ ↦ false ]

unfoldable pub legal_exec_type : Text → Bool
unfolding text_eq to_lower
legal_exec_type s =
    let t = map to_lower s in
    text_eq t (text "local")
    || text_eq t (text "remote")
    || text_eq t (text "script")
    || text_eq t (text "httpcall")
    || text_eq t (text "http_call")
    || text_eq t (text "http")
    || text_eq t (text "shell")

-- `what` is the message of the exception that the conversion of a value throws.
module _ (print : Printers) (c : JsonCalls) (what : Json → Text) where
  -- The configuration that the rendered task must have, with its id.
  unfoldable pub checked_config : Json → Rendered TaskConfig
  checked_config j = elim (parse_task_config_from_req c j) [
    | none ↦ failed (text "parseTaskConfigFromReq failed: " ++ what j)
    | some cfg ↦ if is_empty cfg.id.value then failed (text "task id is required") else done cfg
  ]

  -- By the member `exec_type` of the task.
  unfoldable pub check_typed : Json → Option Json → Rendered Json
  check_typed j none = checked_config j >>= λ cfg. done j
  check_typed j (some (string s)) = checked_config j >>= λ cfg.
      if legal_exec_type s then done j else failed (text "invalid exec_type: " ++ s)
  check_typed j (some _) = failed (text "exec_type must be string")

  unfoldable pub check_rendered : Json → Rendered Json
  check_rendered j =
      if has_tasks j then done j else check_typed j (member (text "exec_type") (task_of_request j))

  unfoldable pub render : TaskTemplate → ParamMap → Rendered Json
  render t input =
      let v = validate_and_resolve t.schema input in
      if v.ok
      then render_node print v.resolved t.task_json_template >>= check_rendered
      else if is_empty (error_text v.errors)
      then failed (text "validateAndResolve failed")
      else failed (error_text v.errors)

legal_exec_type_lem :
    (s : Text)
    → legal_exec_type s ≡ true
    → (exec_type_of_name s ≢ dag) × (exec_type_of_name s ≢ template)
unfolding legal_exec_type exec_type_of_name
legal_exec_type_lem s h = ground arith
