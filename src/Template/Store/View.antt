-- ===== src/Template/Store/View.antt =====
-- server/src/template/template_store.cpp: the store as a map from ids to templates.
use task_hub.Json.{Json, JsonCalls, ReadsBack, set_field, find_field}
use task_hub.Template.Store.{
  Table, IsKeyed, Store, row_of, read_row, read_param, read_params, read_schema, read_json, create,
  get, remove, TemplateRow, selected,
}
use task_hub.Template.Types.{
  TaskTemplate, ParamDef, ParamSchema, param_to_json, params_to_json, param_schema_to_json,
  param_type_name,
}
use task_hub.Template.Types.Schema.{param_type_of_name-param_type_name}
use task_hub.Prelude.{
  Text, text_eq, text_lt, text_eq_iff, Text-Eq, ◌=?◌, ◌≡◌, refl, arith, true, false, Option, none,
  some, [], ◌∷◌, find, if◌then◌else◌, inl, inr, Option-cases, Bool-cases, ◌>>=◌, emplace, ◌∙◌, List,
  find-erase, sym, find-put, subst, ◌↔◌, ◌⊎◌, ◌≢◌,
}

find-emplace :
    (k j : Text) (v : TaskTemplate) (m : List (Text × TaskTemplate))
    → find k m ≡ none
    → find j (emplace k v m) ≡ (if k =? j then some v else find j m)
unfolding emplace
find-emplace k j v m e = rw (e, emplace) (find-put k j v m)

module _ (c : JsonCalls) (parse : Text → Option Json) where
  -- The two texts of a template are read back as the values that they were written from.
  pub record IsPrinted (x : TaskTemplate) : Type 0 where
    pub task : parse (c.dump x.task_json_template) ≡ some x.task_json_template
    pub schema :
        parse (c.dump (param_schema_to_json x.schema)) ≡ some (param_schema_to_json x.schema)

  module _ (r : ReadsBack c) where
    read_param-param_to_json : (p : ParamDef) → read_param c parse (param_to_json p) ≡ some p
    unfolding read_param param_to_json set_field find_field text_eq text_lt
    read_param-param_to_json p =
        rw
          (
            r.reads_text p.name,
            r.reads_text (param_type_name p.type),
            r.reads_bool p.required,
            param_type_of_name-param_type_name,
          )
          refl

    read_params-params_to_json :
        (ps : ParamSchema) → read_params c parse (params_to_json ps) ≡ some ps
    unfolding read_params params_to_json
    read_params-params_to_json [] = refl
    read_params-params_to_json (p ∷ ps) =
        rw (read_param-param_to_json p, read_params-params_to_json ps) refl

    read_row-row_of :
        (x : TaskTemplate)
        → IsPrinted x
        → read_row c parse x.template_id (row_of c parse x) ≡ some x
    unfolding read_row read_json read_schema param_schema_to_json set_field find_field text_eq
    read_row-row_of x p = rw (p.task, p.schema, read_params-params_to_json x.schema) refl

  module _ {D : Type 0} (t : Table D) where
    abbrev row_at : Text → Store D → Option TaskTemplate
    row_at id s = t.select id s.table >>= read_row c parse id

    -- The template of an id in the store.
    abbrev pub view : Text → Store D → Option TaskTemplate
    view id s = elim (find id s.cache) [
      | some x ↦ some x
      | none ↦ t.select id s.table >>= read_row c parse id
    ]

    -- A template in memory is the one of its row.
    abbrev pub IsCoherent : Store D → Type 0
    IsCoherent s =
        (id : Text) (x : TaskTemplate)
        → find id s.cache ≡ some x
        → (t.select id s.table >>= read_row c parse id) ≡ some x

    view_of_row :
        (s : Store D) (id : Text)
        → IsCoherent s
        → view id s ≡ (t.select id s.table >>= read_row c parse id)
    view_of_row s id co = elim (Option-cases (find id s.cache)) [
      | inl e ↦ ground (arith, e)
      | inr (x, e) ↦ ground (arith, e, co id x e)
    ]

    -- What a call makes of a store: it stays coherent, and each id has the template that is said.
    pub record Becomes (s : Store D) (expected : Text → Option TaskTemplate) : Type 0 where
      pub coherent : IsCoherent s
      pub shows : (id : Text) → view id s ≡ expected id

    becomes :
        (s : Store D) (expected : Text → Option TaskTemplate)
        → IsCoherent s
        → ((id : Text) → (t.select id s.table >>= read_row c parse id) ≡ expected id)
        → Becomes s expected
    becomes s expected co rows = record {
      coherent = co;
      shows = λ id. view_of_row s id co ∙ rows id;
    }

    module _ (r : ReadsBack c) (keyed : IsKeyed t) (s : Store D) (co : IsCoherent s) where
      created_row :
          (x : TaskTemplate) (j : Text)
          → IsPrinted x
          → (create c parse t x s).0 ≡ true
          → row_at j (create c parse t x s).1 ≡ (if x.template_id =? j then some x else row_at j s)
      unfolding create
      created_row x j p e =
          let sel = keyed.inserted x.template_id j (row_of c parse x) s.table e in
          elim (Bool-cases (x.template_id =? j)) [
            | inl q ↦ ground (arith, sel, q, read_row-row_of r x p, text_eq_iff x.template_id j)
            | inr q ↦ ground (arith, sel, q)
          ]

      not_cached :
          (x : TaskTemplate) → (create c parse t x s).0 ≡ true → find x.template_id s.cache ≡ none
      unfolding create
      not_cached x e =
          let free = keyed.is_new x.template_id (row_of c parse x) s.table e in
          elim (Option-cases (find x.template_id s.cache)) [
            | inl q ↦ q
            | inr (y, q) ↦ ground (arith, free, co x.template_id y q)
          ]

      create-Becomes :
          (x : TaskTemplate)
          → IsPrinted x
          → (create c parse t x s).0 ≡ true
          → Becomes
              (create c parse t x s).1
              (λ id. if x.template_id =? id then some x else view id s)
      unfolding create
      create-Becomes x p e =
          let s' = (create c parse t x s).1 in
          let rows = λ (j : Text). created_row x j p e in
          let found = λ (j : Text). find-emplace x.template_id j x s.cache (not_cached x e) in
          becomes s' (λ id. if x.template_id =? id then some x else view id s)
            (λ j y (q : find j s'.cache ≡ some y). ground (arith, rows j, found j, e, q, co j y))
            (λ j. ground (arith, rows j, view_of_row s j co))

      same : Becomes s (λ j. view j s)
      same = record { coherent = co; shows = λ j. refl }

      selected_row :
          (id : Text) (row : TemplateRow)
          → selected t id s.table ≡ some row
          → t.select id s.table ≡ some row
      selected_row id row e = ground (arith, e)

      get-Becomes : (id : Text) → Becomes (get c parse t id s).1 (λ j. view j s)
      unfolding get
      get-Becomes id = elim (Option-cases (find id s.cache)) [
        | inr (x, e) ↦ rw (e, get) same
        | inl e ↦ elim (Option-cases (selected t id s.table)) [
          | inl n ↦ rw (e, n, get) same
          | inr (row, n) ↦ elim (Option-cases (read_row c parse id row)) [
            | inl m ↦ rw (e, n, m, get) same
            | inr (x, m) ↦
                let s' : Store D = record s { cache = emplace id x s.cache } in
                let found = λ (j : Text). find-emplace id j x s.cache e in
                rw (e, n, m, get)
                  (becomes s' (λ j. view j s)
                    (λ j y (q : find j s'.cache ≡ some y).
                      ground
                        (arith, found j, e, selected_row id row n, m, q, co j y, text_eq_iff id j))
                    (λ j. sym (view_of_row s j co)))
          ]
        ]
      ]

      remove-Becomes :
          (id : Text)
          → (remove c parse t id s).0 ≡ true
          → Becomes (remove c parse t id s).1 (λ j. if id =? j then none else view j s)
      unfolding remove
      remove-Becomes id e =
          let s' = (remove c parse t id s).1 in
          let sel = λ (j : Text). keyed.deleted id j s.table e in
          let found = λ (j : Text). find-erase id j s.cache in
          becomes s' (λ j. if id =? j then none else view j s)
            (λ j y (q : find j s'.cache ≡ some y). ground (arith, sel j, found j, e, q, co j y))
            (λ j. ground (arith, sel j, view_of_row s j co))

      unchanged :
          (s' : Store D) → s'.cache ≡ s.cache → s'.table ≡ s.table → Becomes s' (λ j. view j s)
      unchanged s' a b =
          let whole : s ≡ s' = ground (arith, a, b) in
          subst (λ (u : Store D). Becomes u (λ j. view j s)) whole same

      -- The template is in memory, or the statement that selects it is done.
      abbrev pub CanSee : Text → Type 0
      CanSee id = (find id s.cache ≢ none) ⊎ (t.select_is_done id s.table ≡ true)

      get-view :
          (id : Text) (x : TaskTemplate)
          → ((get c parse t id s).0 ≡ some (some x)) ↔ (view id s ≡ some x) × CanSee id
      unfolding get
      get-view id x = elim (Option-cases (find id s.cache)) [
        | inr (y, e) ↦ ground (arith, e)
        | inl e ↦ elim (Bool-cases (t.select_is_done id s.table)) [
          | inr f ↦ ground (arith, e, f)
          | inl f ↦ elim (Option-cases (t.select id s.table)) [
            | inl n ↦ ground (arith, e, f, n)
            | inr (row, n) ↦ elim (Option-cases (read_row c parse id row)) [
              | inl m ↦ ground (arith, e, f, n, m)
              | inr (y, m) ↦ ground (arith, e, f, n, m)
            ]
          ]
        ]
      ]

      create-unchanged :
          (x : TaskTemplate)
          → (create c parse t x s).0 ≡ false
          → Becomes (create c parse t x s).1 (λ j. view j s)
      unfolding create
      create-unchanged x e =
          unchanged (create c parse t x s).1 (ground (arith, e))
            (ground (arith, keyed.not_inserted x.template_id (row_of c parse x) s.table e))

      remove-unchanged :
          (id : Text)
          → (remove c parse t id s).0 ≡ false
          → Becomes (remove c parse t id s).1 (λ j. view j s)
      unfolding remove
      remove-unchanged id e =
          unchanged (remove c parse t id s).1 (ground (arith, e))
            (ground (arith, keyed.not_deleted id s.table e))

      create-view :
          (x : TaskTemplate)
          → IsPrinted x
          → let (ok, s') = create c parse t x s in
            Becomes s'
              (λ j. if ok then if x.template_id =? j then some x else view j s else view j s)
      create-view x p = elim (Bool-cases (create c parse t x s).0) [
        | inl e ↦ rw e (create-Becomes x p e)
        | inr e ↦ rw e (create-unchanged x e)
      ]

      remove-view :
          (id : Text)
          → let (ok, s') = remove c parse t id s in
            Becomes s' (λ j. if ok then if id =? j then none else view j s else view j s)
      remove-view id = elim (Bool-cases (remove c parse t id s).0) [
        | inl e ↦ rw e (remove-Becomes id e)
        | inr e ↦ rw e (remove-unchanged id e)
      ]

      -- The store is a map from ids to templates, if its table is keyed, the JSON library reads values
      -- back, and each template in memory is the one of its row, which every call keeps, while no
      -- other call overlaps it. For a template
      -- that is printed so that it is read back: if `create` tells that it is done, the template is the
      -- one of its id and no other id changes, and else nothing changes; `get` answers it exactly if
      -- the map has it and it is in memory or the `SELECT` is done, and changes nothing; if `remove` tells that it is done, the id has none and no
      -- other id changes, and else nothing changes.
      pub store_is_map :
          (x : TaskTemplate) (id : Text)
          → IsPrinted x
          → (let (ok, s') = create c parse t x s in
              Becomes s'
                (λ j. if ok then if x.template_id =? j then some x else view j s else view j s))
            × (((get c parse t id s).0 ≡ some (some x)) ↔ (view id s ≡ some x) × CanSee id)
            × Becomes (get c parse t id s).1 (λ j. view j s)
            × (let (ok, s') = remove c parse t id s in
                Becomes s' (λ j. if ok then if id =? j then none else view j s else view j s))
      store_is_map x id p = (create-view x p, get-view id x, get-Becomes id, remove-view id)
