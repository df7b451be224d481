-- ===== src/Template/Store.antt =====
-- server/src/template/template_store.cpp: the templates in the database, with those that have been
-- used in memory. The table of the database is an interface. The store holds no lock over the two: a
-- call is modelled as one that no other call overlaps.
use task_hub.Json.{Json, Items, nil, cons, JsonCalls, array, object, end, null, member, value_with}
use task_hub.Template.Types.{
  TaskTemplate, ParamDef, ParamSchema, param_type_of_name, param_schema_to_json,
}
use task_hub.Prelude.{
  Text, text, Text-Eq, ◌=?◌, ◌≡◌, Bool, true, false, Option, none, some, List, [], ◌∷◌, ◌++◌, find,
  emplace, erase, if◌then◌else◌, ◌>>=◌, ◌⊎◌, ◌≢◌,
}
pub mod View

-- A row; a text that is null in the database is `none`.
pub record TemplateRow : Type 0 where
  pub name : Text
  pub description : Text
  pub task_json : Option Text
  pub schema_json : Option Text

-- `INSERT`, `SELECT … WHERE template_id = ?`, `SELECT` of all the rows, and `DELETE`, with whether the
-- statement is done. `select` is the row that the database holds; the `SELECT` of all the rows gives
-- those that it comes to, which are none if it cannot be prepared.
pub record Table (D : Type 0) : Type 0 where
  pub insert : Text → TemplateRow → D → Bool × D
  pub select : Text → D → Option TemplateRow
  pub select_is_done : Text → D → Bool
  pub select_all : D → List (Text × TemplateRow)
  pub delete : Text → D → Bool × D

-- The row that the statement gives, if it is prepared and stepped.
abbrev pub selected : {D : Type 0} → Table D → Text → D → Option TemplateRow
selected t id d = if t.select_is_done id d then t.select id d else none

-- What the store relies on: the id is the key of the table, and a statement that is not done changes
-- nothing.
pub record IsKeyed {D : Type 0} (t : Table D) : Type 0 where
  pub inserted :
      (id j : Text) (row : TemplateRow) (d : D)
      → (t.insert id row d).0 ≡ true
      → t.select j (t.insert id row d).1 ≡ (if id =? j then some row else t.select j d)
  pub is_new :
      (id : Text) (row : TemplateRow) (d : D) → (t.insert id row d).0 ≡ true → t.select id d ≡ none
  pub not_inserted :
      (id : Text) (row : TemplateRow) (d : D)
      → (t.insert id row d).0 ≡ false
      → (t.insert id row d).1 ≡ d
  pub deleted :
      (id j : Text) (d : D)
      → (t.delete id d).0 ≡ true
      → t.select j (t.delete id d).1 ≡ (if id =? j then none else t.select j d)
  pub not_deleted : (id : Text) (d : D) → (t.delete id d).0 ≡ false → (t.delete id d).1 ≡ d

pub record Store (D : Type 0) : Type 0 where
  pub cache : List (Text × TaskTemplate)
  pub table : D

module _ (c : JsonCalls) (parse : Text → Option Json) where
  abbrev pub row_of : TaskTemplate → TemplateRow
  row_of t = record {
    name = t.name;
    description = t.description;
    task_json = some (c.dump t.task_json_template);
    schema_json = some (c.dump (param_schema_to_json t.schema));
  }

  -- `none` is an exception, here and below.
  unfoldable pub read_param : Json → Option ParamDef
  read_param j = do
    name ← value_with c.get_text (text "name") [] j
    type ← value_with c.get_text (text "type") [] j
    required ← value_with c.get_bool (text "required") false j
    default_value ← value_with some (text "defaultValue") null j
    some (record {
      name = name;
      type = param_type_of_name type;
      required = required;
      default_value = default_value;
    })

  unfoldable pub read_params : Items → Option ParamSchema
  read_params nil = some []
  read_params (cons j js) = do p ← read_param j; ps ← read_params js; some (p ∷ ps)

  unfoldable pub read_schema : Option Text → Option ParamSchema
  read_schema none = some []
  read_schema (some s) = do
    j ← parse s
    elim (member (text "params") j) [ some (array js) ↦ read_params js | _ ↦ some [] ]

  unfoldable pub read_json : Option Text → Option Json
  read_json none = some (object end)
  read_json (some s) = parse s

  unfoldable pub read_row : Text → TemplateRow → Option TaskTemplate
  read_row id row = do
    task ← read_json row.task_json
    schema ← read_schema row.schema_json
    some (record {
      template_id = id;
      name = row.name;
      description = row.description;
      task_json_template = task;
      schema = schema;
    })

  module _ {D : Type 0} (t : Table D) where
    unfoldable pub create : TaskTemplate → Store D → Bool × Store D
    create x s =
        let (ok, d) = t.insert x.template_id (row_of x) s.table in
        (ok, record { cache = if ok then emplace x.template_id x s.cache else s.cache; table = d })

    -- The outer option is an exception, the inner one a template that is not found.
    unfoldable pub get : Text → Store D → Option (Option TaskTemplate) × Store D
    get id s = elim (find id s.cache) [
      | some x ↦ (some (some x), s)
      | none ↦ elim (selected t id s.table) [
        | none ↦ (some none, s)
        | some row ↦ elim (read_row id row) [
          | none ↦ (none, s)
          | some x ↦ (some (some x), record s { cache = emplace id x s.cache })
        ]
      ]
    ]

    unfoldable pub remove : Text → Store D → Bool × Store D
    remove id s =
        let (ok, d) = t.delete id s.table in
        (ok, record { cache = if ok then erase id s.cache else s.cache; table = d })

    unfoldable pub read_rows : List (Text × TemplateRow) → Option (List TaskTemplate)
    read_rows [] = some []
    read_rows ((id, row) ∷ rows) = do x ← read_row id row; xs ← read_rows rows; some (x ∷ xs)

    -- The templates in memory that the rows do not have come last.
    unfoldable pub not_in_rows :
        List (Text × TaskTemplate) → List (Text × TemplateRow) → List TaskTemplate
    not_in_rows [] rows = []
    not_in_rows ((id, x) ∷ xs) rows =
        let rest = not_in_rows xs rows in elim (find id rows) [ none ↦ x ∷ rest | some row ↦ rest ]

    unfoldable pub list : Store D → Option (List TaskTemplate)
    list s = do
      let rows = t.select_all s.table
      xs ← read_rows rows
      some (xs ++ not_in_rows s.cache rows)
