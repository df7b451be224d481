-- ===== src/Tests/TemplateTests.antt =====
-- A template with one parameter.

use task_hub.Runner.ConfigJson.{
  parse_task_config_from_req, task_of_request, params_of_member, limit_priority, priority_of_int,
}
use task_hub.Runner.Task.{TaskConfig, dag, template, to_lower, exec_type_of_name}
use task_hub.Template.Render.Checked.{render-done, IsTyped}
use task_hub.Template.Render.{
  render, check_rendered, has_tasks, check_typed, checked_config, legal_exec_type,
}
use task_hub.Template.Renderer.Constants.{IsConstant}
use task_hub.Template.Validator.Correct.{
  Meets, or_default, default_for, validate_and_resolve-ok_iff,
}
use task_hub.Template.Validator.{validate_and_resolve, check_params, check_param, type_matches}
use task_hub.Template.Types.{ParamDef, ParamType, ParamMap, TaskTemplate}
use task_hub.Prelude.{
  List, [], ◌∷◌, text, Text, ◌≡◌, ◌≢◌, ◌↔◌, All, find, refl, some, none, true, Text-Eq, arith,
  text_eq, text_lt,
}
use task_hub.Json.{
  string, JsonCalls, ReadsBack, boolean, integer, null, object, field, end, Json, find_field,
  set_field,
}
use task_hub.Template.Renderer.{
  done, Printers, render_node, render_string, param_inject, break_at_pair, render_from,
}
use task_hub.Template.Renderer.Pieces.{
  literal, hole, Piece, print_pieces, render_pieces, render_string-print_pieces, IsPlain,
}

-- A library that converts what has the right type.
abbrev pub test_calls : JsonCalls
test_calls = record {
  dump = λ j. [];
  get_text = λ j. elim j [ string s ↦ some s | _ ↦ none ];
  get_bool = λ j. elim j [ boolean b ↦ some b | _ ↦ none ];
  get_int = λ j. elim j [ integer i ↦ some i | _ ↦ none ];
  get_long = λ j. elim j [ integer i ↦ some i | _ ↦ none ];
}

pub test_calls-ReadsBack : ReadsBack test_calls
test_calls-ReadsBack = record {
  reads_text = λ s. refl;
  reads_bool = λ b. refl;
  reads_int = λ i h. refl;
  reads_long = λ i h. refl;
}

abbrev pub test_print : Printers
test_print = record { of_long = λ i. text "1"; of_float = λ n. text "0.5"; dump = λ j. [] }

abbrev host_param : ParamDef
host_param = record {
  name = text "host";
  type = ParamType.string;
  required = true;
  default_value = null;
}

abbrev pub host_input : ParamMap
host_input = (text "host", string (text "a")) ∷ []

validate_and_resolve-ok_iff_example :
    (((validate_and_resolve (host_param ∷ []) host_input).ok ≡ true)
      ↔ All (Meets host_input) (host_param ∷ []))
    × ((k : Text)
        → find k (validate_and_resolve (host_param ∷ []) host_input).resolved
          ≡ or_default (find k host_input) (default_for k (host_param ∷ [])))
validate_and_resolve-ok_iff_example = validate_and_resolve-ok_iff (host_param ∷ []) host_input

abbrev greeting : List Piece
greeting = literal (text "at ") ∷ hole (text " host ") ∷ literal (text "!") ∷ []

greeting-ArePlain : All IsPlain greeting
greeting-ArePlain = ground arith

render_string-print_pieces_example :
    render_string test_print host_input (print_pieces greeting)
    ≡ render_pieces test_print host_input greeting
render_string-print_pieces_example =
    render_string-print_pieces test_print host_input greeting greeting-ArePlain

abbrev plain_task : Json
plain_task = object (field (text "id") (string (text "t")) end)

plain_task-IsConstant : IsConstant plain_task
unfolding IsConstant param_inject break_at_pair text_eq
plain_task-IsConstant = ground arith

abbrev pub host_template : TaskTemplate
host_template = record {
  template_id = text "t";
  name = text "t";
  description = [];
  task_json_template = object (
      field (text "exec_type") (string (text "Shell")) (field (text "id") (string (text "t")) end));
  schema = host_param ∷ [];
}

pub render_host :
    render test_print test_calls (λ j. []) host_template host_input
    ≡ done host_template.task_json_template
unfolding render validate_and_resolve check_params check_param find text_eq type_matches render_node
    param_inject render_string render_from break_at_pair check_rendered has_tasks find_field
    set_field text_lt check_typed parse_task_config_from_req task_of_request checked_config
    legal_exec_type to_lower exec_type_of_name params_of_member limit_priority priority_of_int
render_host = refl

render-done_example :
    ((validate_and_resolve host_template.schema host_input).ok ≡ true)
    × (render_node test_print
          (validate_and_resolve host_template.schema host_input).resolved
          host_template.task_json_template
        ≡ done host_template.task_json_template)
    × ((cfg : TaskConfig) × (parse_task_config_from_req test_calls host_template.task_json_template
          ≡ some cfg)
        × (cfg.id.value ≢ [])
        × (cfg.exec_type ≢ dag)
        × (cfg.exec_type ≢ template))
    × IsTyped host_template.task_json_template
unfolding has_tasks find_field text_eq
render-done_example =
    render-done test_print test_calls test_calls-ReadsBack (λ j. []) host_template host_input
      host_template.task_json_template render_host refl
