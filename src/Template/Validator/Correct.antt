-- ===== src/Template/Validator/Correct.antt =====
-- What a successful validation means.
use task_hub.Template.Validator.{
  ValidationResult, check_param, type_matches, ValidationError, check_params, validate_and_resolve,
}
use task_hub.Json.{Json, is_null}
use task_hub.Template.Types.{ParamMap, ParamSchema, ParamDef}
use task_hub.Prelude.{
  Text, Text-Eq, text, List, [], ◌∷◌, ◌++◌, ◌≡◌, refl, arith, some, ◌=?◌, ◌&&◌, Option, find,
  is_empty, none, false, if◌then◌else◌, not, true, ◌⊎◌, ◌↔◌, All, Option-cases, emplace, inl,
  Bool-cases, inr, find-put, ap, text_eq_iff, ◌∙◌,
}

-- What one definition asks of the parameters.
abbrev pub Meets : ParamMap → ParamDef → Type 0
Meets input p =
    ((find p.name input ≡ none) × (p.required ≡ false))
    ⊎ ((v : Json) × (find p.name input ≡ some v) × (type_matches p.type v ≡ true))

-- The default that the schema gives to a name: that of the first definition with one.
unfoldable pub default_for : Text → ParamSchema → Option Json
default_for k [] = none
default_for k (p ∷ ps) =
    let later = default_for k ps in
    if (p.name =? k) && not (is_null p.default_value) && not p.required
    then some p.default_value
    else later

-- A value, or else a default.
abbrev pub or_default : Option Json → Option Json → Option Json
or_default none d = d
or_default (some v) d = some v

is_empty-snoc : (xs : List ValidationError) (e : ValidationError) → is_empty (xs ++ e ∷ []) ≡ false
is_empty-snoc [] e = refl
is_empty-snoc (x ∷ xs) e = refl

module _ (input : ParamMap) where
  check_param-errors :
      (p : ParamDef) (r : ValidationResult)
      → (is_empty (check_param p input r).errors ≡ true)
        ↔ ((is_empty r.errors ≡ true) × Meets input p)
  unfolding check_param
  check_param-errors p r = elim (Option-cases (find p.name input)) [
    | inl e ↦ elim (Bool-cases p.required) [
      | inl q ↦ (
        λ h. ground (
          arith,
          e,
          is_empty-snoc r.errors (record { field = p.name; message = text "required" }),
        ),
        λ (h, m). elim m [ inl (a, b) ↦ ground arith | inr (v, a, b) ↦ ground arith ],
      )
      | inr q ↦ (λ h. (ground (arith, e), inl (e, q)), λ (h, m). ground (arith, e))
    ]
    | inr (v, e) ↦ elim (Bool-cases (type_matches p.type v)) [
      | inl q ↦ (λ h. (ground (arith, e), inr (v, e, q)), λ (h, m). ground (arith, e))
      | inr q ↦ (
        λ h. ground (
          arith,
          e,
          is_empty-snoc r.errors (record { field = p.name; message = text "type mismatch" }),
        ),
        λ (h, m). elim m [ inl (a, b) ↦ ground arith | inr (w, a, b) ↦ ground arith ],
      )
    ]
  ]

  check_params-errors :
      (ps : ParamSchema) (r : ValidationResult)
      → (is_empty (check_params ps input r).errors ≡ true)
        ↔ ((is_empty r.errors ≡ true) × All (Meets input) ps)
  unfolding check_params default_for
  check_params-errors [] r = (λ h. (h, tt), λ h. h.0)
  check_params-errors (p ∷ ps) r =
      let (f, g) = check_params-errors ps (check_param p input r) in
      let (f', g') = check_param-errors p r in
      (
        λ h. let (a, b) = f h in let (a', b') = f' a in (a', (b', b)),
        λ (a, (b, ms)). g (g' (a, b), ms),
      )

  -- The names that are resolved: those that were, and then the defaults.
  check_param-resolved :
      (p : ParamDef) (r : ValidationResult) (k : Text)
      → ((j : Text) (v : Json) → find j input ≡ some v → find j r.resolved ≡ some v)
      → find k (check_param p input r).resolved
        ≡ or_default (find k r.resolved) (default_for k (p ∷ []))
  unfolding check_param default_for emplace
  check_param-resolved p r k h = elim (Option-cases (find p.name input)) [
    | inl e ↦ elim (Option-cases (find p.name r.resolved)) [
      | inl f ↦
          ground (arith, e, f, find-put p.name k p.default_value r.resolved, text_eq_iff p.name k)
      | inr (w, f) ↦ ground (arith, e, f, text_eq_iff p.name k)
    ]
    | inr (v, e) ↦ ground (arith, e, h p.name v e, text_eq_iff p.name k)
  ]

  check_params-ok : (ps : ParamSchema) (r : ValidationResult) → (check_params ps input r).ok ≡ r.ok
  unfolding check_params check_param
  check_params-ok [] r = refl
  check_params-ok (p ∷ ps) r = check_params-ok ps (check_param p input r) ∙ ground arith

  default_for-cons :
      (k : Text) (p : ParamDef) (ps : ParamSchema) (o : Option Json)
      → or_default (or_default o (default_for k (p ∷ []))) (default_for k ps)
        ≡ or_default o (default_for k (p ∷ ps))
  unfolding default_for
  default_for-cons k p ps none = ground arith
  default_for-cons k p ps (some v) = refl

  check_params-resolved :
      (ps : ParamSchema) (r : ValidationResult) (k : Text)
      → ((j : Text) (v : Json) → find j input ≡ some v → find j r.resolved ≡ some v)
      → find k (check_params ps input r).resolved
        ≡ or_default (find k r.resolved) (default_for k ps)
  unfolding check_params default_for
  check_params-resolved [] r k h = ground arith
  check_params-resolved (p ∷ ps) r k h =
      check_params-resolved ps (check_param p input r) k
        (λ j v e. ground (arith, check_param-resolved p r j h, h j v e))
      ∙ ap (λ (o : Option Json). or_default o (default_for k ps)) (check_param-resolved p r k h)
      ∙ default_for-cons k p ps (find k r.resolved)

-- Validation succeeds exactly when every parameter that is required is given, and every one that is
-- given has the type of its definition. The resolved parameters are those given and, for other
-- names, the first default that is not null.
pub validate_and_resolve-ok_iff :
    (schema : ParamSchema) (input : ParamMap)
    → (((validate_and_resolve schema input).ok ≡ true) ↔ All (Meets input) schema)
      × ((k : Text)
          → find k (validate_and_resolve schema input).resolved
            ≡ or_default (find k input) (default_for k schema))
unfolding validate_and_resolve
validate_and_resolve-ok_iff schema input =
    let start : ValidationResult = record { ok = true; errors = []; resolved = input } in
    let (f, g) = check_params-errors input schema start in
    let kept : (check_params schema input start).ok ≡ true = check_params-ok input schema start in
    (
      (λ h. (f (ground (arith, kept))).1, λ m. ground (arith, kept, g (refl, m))),
      λ k. ground (arith, check_params-resolved input schema start k (λ j v e. e)),
    )
