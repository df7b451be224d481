-- ===== src/Template/Types/Schema.antt =====
-- A schema is read back from its JSON form.
use task_hub.Template.Types.{
  param_type_of_name, param_type_name, ParamType, make_param_schema, param_of_json, params_of_items,
  param_schema_to_json, param_to_json, params_to_json, ParamSchema, ParamDef,
}
use task_hub.Json.{JsonCalls, ReadsBack, set_field, find_field}
use task_hub.Prelude.{Text-Eq, [], ◌∷◌, ◌≡◌, refl, some, text_eq, text_lt}

pub param_type_of_name-param_type_name :
    (t : ParamType) → param_type_of_name (param_type_name t) ≡ t
unfolding param_type_of_name param_type_name
param_type_of_name-param_type_name ParamType.string = refl
param_type_of_name-param_type_name _ = refl

module _ (c : JsonCalls) (r : ReadsBack c) where
  param_of_json-param_to_json : (p : ParamDef) → param_of_json c (param_to_json p) ≡ some p
  unfolding param_of_json param_to_json set_field find_field text_eq text_lt
  param_of_json-param_to_json p =
      rw
        (
          r.reads_text p.name,
          r.reads_text (param_type_name p.type),
          r.reads_bool p.required,
          param_type_of_name-param_type_name,
        )
        refl

  params_of_items-params_to_json :
      (ps : ParamSchema) → params_of_items c (params_to_json ps) ≡ some ps
  unfolding params_of_items params_to_json
  params_of_items-params_to_json [] = refl
  params_of_items-params_to_json (p ∷ ps) =
      rw (param_of_json-param_to_json p, params_of_items-params_to_json ps) refl

  -- A schema that is written as JSON is read back as it was, by a library that reads texts and
  -- Booleans back.
  pub make_param_schema-param_schema_to_json :
      (s : ParamSchema) → make_param_schema c (param_schema_to_json s) ≡ some s
  unfolding make_param_schema param_schema_to_json set_field find_field text_eq
  make_param_schema-param_schema_to_json s = params_of_items-params_to_json s
