-- ===== src/Template/Types.antt =====
-- server/src/template/template_types.h and task_template.h.
use task_hub.Prelude.{
  ℕ, Text, Text-Eq, text, List, [], ◌∷◌, ◌≡◌, refl, arith, ◌>>=◌, ◌=?◌, Bool, Option, text_eq,
  if◌then◌else◌, none, some, false,
}
use task_hub.Json.{
  Json, Items, Fields, JsonCalls, ReadsBack, nil, object, cons, member, set_field, value_with,
  array, boolean, end, null,
}
pub mod Schema

pub data ParamType : Type 0 where
  string int bool json : ParamType

unfoldable pub param_type_name : ParamType → Text
param_type_name ParamType.string = text "string"
param_type_name int = text "int"
param_type_name bool = text "bool"
param_type_name json = text "json"

-- The text is compared as it is: the lower-case copy that the source makes is not used.
unfoldable pub param_type_of_name : Text → ParamType
unfolding text_eq
param_type_of_name s =
    if text_eq s (text "string")
    then ParamType.string
    else if text_eq s (text "int")
    then int
    else if text_eq s (text "bool")
    then bool
    else if text_eq s (text "json")
    then json
    else ParamType.string

pub record ParamDef : Type 0 where
  pub name : Text
  pub type : ParamType
  pub required : Bool
  pub default_value : Json

abbrev pub ParamSchema : Type 0
ParamSchema = List ParamDef

-- `ParamSchema::find`.
unfoldable pub find_param : Text → ParamSchema → Option ParamDef
find_param name [] = none
find_param name (p ∷ ps) = let rest = find_param name ps in if p.name =? name then some p else rest

pub record TaskTemplate : Type 0 where
  pub template_id : Text
  pub name : Text
  pub description : Text
  pub task_json_template : Json
  pub schema : ParamSchema

-- An unordered_map from names to values.
abbrev pub ParamMap : Type 0
ParamMap = List (Text × Json)

unfoldable pub param_to_json : ParamDef → Json
param_to_json p = object (
    set_field (text "defaultValue") p.default_value (
      set_field (text "required") (boolean p.required) (
        set_field (text "type") (Json.string (param_type_name p.type))
          (set_field (text "name") (Json.string p.name) end))))

unfoldable pub params_to_json : ParamSchema → Items
params_to_json [] = nil
params_to_json (p ∷ ps) = cons (param_to_json p) (params_to_json ps)

unfoldable pub param_schema_to_json : ParamSchema → Json
param_schema_to_json s = object (set_field (text "params") (array (params_to_json s)) end)

unfoldable pub template_to_json : TaskTemplate → Json
template_to_json t = object (
    set_field (text "schema") (param_schema_to_json t.schema) (
      set_field (text "task_json_template") t.task_json_template (
        set_field (text "description") (Json.string t.description) (
          set_field (text "name") (Json.string t.name)
            (set_field (text "template_id") (Json.string t.template_id) end)))))

module _ (c : JsonCalls) where
  unfoldable pub param_of_json : Json → Option ParamDef
  param_of_json j = do
    name ← value_with c.get_text (text "name") [] j
    type ← value_with c.get_text (text "type") (text "string") j
    required ← value_with c.get_bool (text "required") false j
    default_value ← value_with some (text "defaultValue") null j
    some (record {
      name = name;
      type = param_type_of_name type;
      required = required;
      default_value = default_value;
    })

  unfoldable pub params_of_items : Items → Option ParamSchema
  params_of_items nil = some []
  params_of_items (cons j js) = do p ← param_of_json j; ps ← params_of_items js; some (p ∷ ps)

  -- `none` is the exception of a conversion.
  unfoldable pub make_param_schema : Json → Option ParamSchema
  make_param_schema j = elim (member (text "params") j) [
    | some (array xs) ↦ params_of_items xs
    | _ ↦ some []
  ]
