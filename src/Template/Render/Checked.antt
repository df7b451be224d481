-- ===== src/Template/Render/Checked.antt =====
-- server/src/template/template_renderer.cpp: what a template has that is rendered without an error.

use task_hub.Template.Validator.{validate_and_resolve}
use task_hub.Template.Types.{TaskTemplate, ParamMap}
use task_hub.Template.Render.{
  checked_config, check_rendered, render, has_tasks, legal_exec_type_lem, check_typed,
  legal_exec_type,
}
use task_hub.Runner.ConfigJson.{parse_task_config_from_req, task_of_request}
use task_hub.Prelude.{
  >>=-some, arith, text, Option, refl, some, none, ◌≡◌, ◌≢◌, refl, Text, some, [], text, false,
  true, inl, inr, ◌⊎◌, Text-Eq, map, subst, text_eq_iff,
}
use task_hub.Json.{
  string, JsonCalls, ReadsBack, Json, value_with, object, member, is_string, find_field,
}
use task_hub.Runner.Task.{TaskConfig, dag, template, exec_type_of_name, to_lower}
use task_hub.Template.Renderer.{Rendered, Printers, render_node, done, failed, ◌>>=◌}

>>=-done :
    {A B : Type 0} (m : Rendered A) (f : A → Rendered B) (b : B)
    → m >>= f ≡ done b
    → (a : A) × (m ≡ done a) × (f a ≡ done b)
>>=-done (done a) f b h = (a, refl, h)
>>=-done (failed e) f b h = cc

-- The names of the types that a rendered task may have, in lower case.
abbrev pub IsLegalName : Text → Type 0
IsLegalName s =
    (map to_lower s ≡ text "local")
    ⊎ (map to_lower s ≡ text "remote")
    ⊎ (map to_lower s ≡ text "script")
    ⊎ (map to_lower s ≡ text "httpcall")
    ⊎ (map to_lower s ≡ text "http_call")
    ⊎ (map to_lower s ≡ text "http")
    ⊎ (map to_lower s ≡ text "shell")

IsLegalName-lem : (s : Text) → legal_exec_type s ≡ true → IsLegalName s
unfolding legal_exec_type
IsLegalName-lem s h =
    let t = map to_lower s in
    ground (
      arith,
      text_eq_iff t (text "local"),
      text_eq_iff t (text "remote"),
      text_eq_iff t (text "script"),
      text_eq_iff t (text "httpcall"),
      text_eq_iff t (text "http_call"),
      text_eq_iff t (text "http"),
      text_eq_iff t (text "shell"),
    )

legal_Local : legal_exec_type (text "Local") ≡ true
unfolding legal_exec_type
legal_Local = refl

-- A rendered task's type: none, or a text that is a legal name.
abbrev pub IsTyped : Json → Type 0
IsTyped j =
    (member (text "exec_type") (task_of_request j) ≡ none)
    ⊎ ((s : Text) × (member (text "exec_type") (task_of_request j) ≡ some (string s))
        × IsLegalName s)

module _ (print : Printers) (c : JsonCalls) (r : ReadsBack c) (what : Json → Text) where
  parse_task_config_from_req-exec_type :
      (req : Json) (cfg : TaskConfig)
      → parse_task_config_from_req c req ≡ some cfg
      → (e : Text) × (value_with c.get_text (text "exec_type") (text "Local") (task_of_request req)
          ≡ some e)
        × (cfg.exec_type ≡ exec_type_of_name e)
  unfolding parse_task_config_from_req
  parse_task_config_from_req-exec_type req cfg h =
      let jt = task_of_request req in
      let (i, p1, h1) = >>=-some (value_with c.get_text (text "id") [] jt) _ cfg h in
      let (n, p2, h2) = >>=-some (value_with c.get_text (text "name") [] jt) _ cfg h1 in
      let (e, p3, h3) =
        >>=-some (value_with c.get_text (text "exec_type") (text "Local") jt) _ cfg h2 in
      (e, p3, ground arith)

  checked_config-done :
      (j : Json) (cfg : TaskConfig)
      → checked_config print c what j ≡ done cfg
      → (parse_task_config_from_req c j ≡ some cfg) × (cfg.id.value ≢ [])
  unfolding checked_config
  checked_config-done j cfg h = ground arith

  value_with_field :
      (d e : Text) (o : Option Json)
      → (elim o [ none ↦ some d | some v ↦ c.get_text v ]) ≡ some e
      → ((s : Text) × (o ≡ some (string s)) × (e ≡ s))
        ⊎ ((o ≡ none) × (e ≡ d))
        ⊎ ((v : Json) × (o ≡ some v) × (is_string v ≡ false))
  value_with_field d e none h = inr (inl (refl, ground arith))
  value_with_field d e (some (string s)) h = inl (s, refl, ground (arith, r.reads_text s))
  value_with_field d e (some v) h = inr (inr (v, refl, refl))

  -- The text that is read is the member, or else the default.
  value_with-member :
      (k d e : Text) (j : Json)
      → value_with c.get_text k d j ≡ some e
      → ((s : Text) × (member k j ≡ some (string s)) × (e ≡ s))
        ⊎ ((member k j ≡ none) × (e ≡ d))
        ⊎ ((v : Json) × (member k j ≡ some v) × (is_string v ≡ false))
  value_with-member k d e (object fs) h = value_with_field d e (find_field k fs) h
  value_with-member k d e _ h = cc

  check_typed-done :
      (i j : Json) (m : Option Json)
      → check_typed print c what i m ≡ done j
      → (i ≡ j)
        × ((cfg : TaskConfig) × (checked_config print c what i ≡ done cfg))
        × ((m ≡ none) ⊎ ((s : Text) × (m ≡ some (string s)) × (legal_exec_type s ≡ true)))
  unfolding check_typed
  check_typed-done i j none h =
      let (cfg, fine, same) = >>=-done (checked_config print c what i) _ j h in
      (ground arith, (cfg, fine), inl refl)
  check_typed-done i j (some (string s)) h =
      let (cfg, fine, same) = >>=-done (checked_config print c what i) _ j h in
      (ground arith, (cfg, fine), inr (s, refl, ground arith))
  check_typed-done i j (some _) h = cc

  check_rendered-done :
      (i j : Json)
      → check_rendered print c what i ≡ done j
      → has_tasks j ≡ false
      → check_typed print c what i (member (text "exec_type") (task_of_request i)) ≡ done j
  unfolding check_rendered
  check_rendered-done i j h no_tasks = ground arith

  exec_type_is_runnable :
      (j k : Json) (cfg : TaskConfig)
      → parse_task_config_from_req c j ≡ some cfg
      → check_typed print c what j (member (text "exec_type") (task_of_request j)) ≡ done k
      → (cfg.exec_type ≢ dag) × (cfg.exec_type ≢ template)
  exec_type_is_runnable j k cfg parsed ok =
      let jt = task_of_request j in
      let (e, read, eq) = parse_task_config_from_req-exec_type j cfg parsed in
      ground (
        arith,
        value_with-member (text "exec_type") (text "Local") e jt read,
        check_typed-done j k (member (text "exec_type") jt) ok,
        legal_exec_type_lem e,
        legal_exec_type_lem (text "Local"),
        legal_Local,
      )

  -- A template that is rendered without an error to anything but a list of tasks: its parameters pass
  -- the validation, and the result is what the renderer makes of the template with them. The result has
  -- a configuration, whose id is not empty and whose execution type is neither a DAG nor a template, if
  -- the library reads texts back; and its type is missing, or a text that is one of the legal names.
  pub render-done :
      (t : TaskTemplate) (input : ParamMap) (j : Json)
      → render print c what t input ≡ done j
      → has_tasks j ≡ false
      → ((validate_and_resolve t.schema input).ok ≡ true)
        × (render_node print (validate_and_resolve t.schema input).resolved t.task_json_template
            ≡ done j)
        × ((cfg : TaskConfig) × (parse_task_config_from_req c j ≡ some cfg)
            × (cfg.id.value ≢ [])
            × (cfg.exec_type ≢ dag)
            × (cfg.exec_type ≢ template))
        × IsTyped j
  unfolding render
  render-done t input j h no_tasks =
      let v = validate_and_resolve t.schema input in
      let m = render_node print v.resolved t.task_json_template in
      let (i, rendered, checked) = >>=-done m (check_rendered print c what) j (ground arith) in
      let typed = check_rendered-done i j checked no_tasks in
      let (same, (cfg, fine), name) =
        check_typed-done i j (member (text "exec_type") (task_of_request i)) typed in
      let (parsed, has_id) = checked_config-done i cfg fine in
      let (no_dag, no_template) = exec_type_is_runnable i j cfg parsed typed in
      let legal : IsTyped i = elim name [
        | inl e ↦ inl e
        | inr (s, e, l) ↦ inr (s, e, IsLegalName-lem s l)
      ] in
      (
        ground arith,
        ground arith,
        (cfg, ground arith, has_id, no_dag, no_template),
        subst IsTyped same legal,
      )
