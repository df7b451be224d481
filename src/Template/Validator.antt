-- ===== src/Template/Validator.antt =====
-- server/src/template/template_validator.cpp.
use task_hub.Prelude.{
  ℕ, Text, Text-Eq, text, List, [], ◌∷◌, ◌++◌, ◌≡◌, refl, arith, ◌=?◌, ◌||◌, Bool, find, true,
  if◌then◌else◌, none, is_empty, emplace, false, some,
}
use task_hub.Json.{
  Json, is_string, is_null, is_number_integer, is_boolean, is_object, is_array, is_number,
}
use task_hub.Template.Types.{ParamType, ParamDef, ParamSchema, ParamMap}
pub mod Correct

pub record ValidationError : Type 0 where
  pub field : Text
  pub message : Text

pub record ValidationResult : Type 0 where
  pub ok : Bool
  pub errors : List ValidationError
  pub resolved : ParamMap

unfoldable pub type_matches : ParamType → Json → Bool
type_matches ParamType.string v = is_string v
type_matches ParamType.int v = is_number_integer v
type_matches ParamType.bool v = is_boolean v
type_matches ParamType.json v =
    is_object v || is_array v || is_null v || is_string v || is_number v || is_boolean v

-- One definition of the schema, against the parameters that are given.
unfoldable pub check_param : ParamDef → ParamMap → ValidationResult → ValidationResult
check_param p input r = elim (find p.name input) [
  | none ↦
      if p.required
      then record r {
        errors = r.errors ++ record { field = p.name; message = text "required" } ∷ [];
      }
      else if is_null p.default_value
      then r
      else record r { resolved = emplace p.name p.default_value r.resolved }
  | some v ↦ if type_matches p.type v then r else record r {
    errors = r.errors ++ record { field = p.name; message = text "type mismatch" } ∷ [];
  }
]

unfoldable pub check_params : ParamSchema → ParamMap → ValidationResult → ValidationResult
check_params [] input r = r
check_params (p ∷ ps) input r = check_params ps input (check_param p input r)

unfoldable pub validate_and_resolve : ParamSchema → ParamMap → ValidationResult
validate_and_resolve schema input =
    let r = check_params schema input (record { ok = true; errors = []; resolved = input }) in
    if is_empty r.errors then r else record r { ok = false }
