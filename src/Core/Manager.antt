-- ===== src/Core/Manager.antt =====
-- server/src/core/task_manager.cpp: the tasks in memory, and the statements that store them. How a
-- statement fares in the database is given.
use task_hub.Json.{Json, JsonCalls, value_with, object, end}
use task_hub.Prelude.{
  ◌>>=◌, ℕ, Text, [], ◌∷◌, ◌++◌, text, ℤ, pos, Bool, false, true, not, some, none, Option, List,
  map, ◌==◌, suc, if◌then◌else◌, eqb_ℤ, ltb,
}
use task_hub.Core.Task.{Task, TaskStatus, default_task, status_to_string, string_to_status}
pub mod Ids

pub record Manager : Type 0 where
  pub tasks : List Task
  pub next_id : ℕ

-- `sqlite3_prepare_v2` fails, or else `sqlite3_step` does, or neither.
pub data Statement : Type 0 where
  not_prepared : Statement
  not_done : Statement
  is_done : Statement

-- A row of the query; a text that is null in the database is `none`.
pub record Row : Type 0 where
  pub id : ℕ
  pub name : Text
  pub type : ℤ
  pub status : Text
  pub params : Option Text
  pub create_time : Text
  pub update_time : Text
  pub exit_code : ℤ
  pub last_output : Option Text
  pub last_error : Option Text
  pub max_retries : ℤ
  pub retry_count : ℤ
  pub timeout_sec : ℤ
  pub cancel_flag : ℤ

abbrev or_empty : Option Text → Text
or_empty none = []
or_empty (some s) = s

-- `none` is an exception that the conversion of the parameters throws.
unfoldable pub new_task : JsonCalls → Text → Text → ℤ → Json → ℕ → Option Task
new_task c now name type params id = do
  max_retries ← value_with c.get_int (text "max_retries") (pos 0) params
  timeout_sec ← value_with c.get_int (text "timeout_sec") (pos 0) params
  some (record default_task {
    id = id;
    name = name;
    type = type;
    params = params;
    create_time = now;
    update_time = now;
    max_retries = max_retries;
    timeout_sec = timeout_sec;
  })

-- The id is used up also by an exception.
unfoldable pub add_task : JsonCalls → Text → Text → ℤ → Json → Manager → Option ℕ × Manager
add_task c now name type params m =
    let counted = record m { next_id = suc m.next_id } in
    elim (new_task c now name type params m.next_id) [
      | none ↦ (none, counted)
      | some t ↦ (some t.id, record counted { tasks = m.tasks ++ t ∷ [] })
    ]

-- `parse` is the library's, and `none` its exception.
unfoldable pub task_of_row : (Text → Option Json) → Row → Task
task_of_row parse r = record {
  id = r.id;
  name = r.name;
  type = r.type;
  status = string_to_status r.status;
  create_time = r.create_time;
  update_time = r.update_time;
  params = elim r.params [
    | none ↦ default_task.params
    | some s ↦ elim (parse s) [ none ↦ object end | some j ↦ j ]
  ];
  exit_code = r.exit_code;
  last_output = or_empty r.last_output;
  last_error = or_empty r.last_error;
  max_retries = r.max_retries;
  retry_count = r.retry_count;
  timeout_sec = r.timeout_sec;
  cancel_flag = not (eqb_ℤ r.cancel_flag (pos 0));
}

unfoldable pub max_row_id : ℕ → List Row → ℕ
max_row_id max_id [] = max_id
max_row_id max_id (r ∷ rs) = max_row_id (if ltb max_id r.id then r.id else max_id) rs

-- Nothing is loaded when the query cannot be prepared.
unfoldable pub load_from_db : (Text → Option Json) → Option (List Row) → Manager → Manager
load_from_db parse none m = m
load_from_db parse (some rows) m = record {
  tasks = m.tasks ++ map (task_of_row parse) rows;
  next_id = suc (max_row_id 0 rows);
}

unfoldable pub get_task_in : ℕ → List Task → Option Task
get_task_in id [] = none
get_task_in id (t ∷ ts) = let rest = get_task_in id ts in if t.id == id then some t else rest

unfoldable pub get_task : ℕ → Manager → Option Task
get_task id m = get_task_in id m.tasks

-- The first task with the id is changed.
unfoldable pub change_task : ℕ → (Task → Task) → List Task → List Task
change_task id f [] = []
change_task id f (t ∷ ts) =
    let rest = change_task id f ts in if t.id == id then f t ∷ ts else t ∷ rest

abbrev pub is_prepared : Statement → Bool
is_prepared not_prepared = false
is_prepared _ = true

abbrev pub is_stored : Statement → Bool
is_stored is_done = true
is_stored _ = false

unfoldable pub set_running : Text → Statement → ℕ → Manager → Bool × Manager
set_running now sql id m = elim (get_task id m) [
  | none ↦ (false, m)
  | some t ↦ (
    is_prepared sql,
    record m {
      tasks =
          change_task id (λ t. record t { status = TaskStatus.running; update_time = now }) m.tasks;
    },
  )
]

unfoldable pub update_task : Statement → Task → Manager → Bool × Manager
update_task sql updated m = elim (get_task updated.id m) [
  | none ↦ (false, m)
  | some t ↦ (is_stored sql, record m { tasks = change_task updated.id (λ t. updated) m.tasks })
]

unfoldable pub set_finished :
    Text → Statement → ℕ → Bool → ℤ → Text → Text → Manager → Bool × Manager
set_finished now sql id ok exit_code output error_msg m = elim (get_task id m) [
  | none ↦ (false, m)
  | some t ↦ (
    is_prepared sql,
    record m {
      tasks =
          change_task id
            (λ t. record t {
              status = if ok then TaskStatus.success else TaskStatus.failed;
              exit_code = exit_code;
              last_output = output;
              last_error = error_msg;
              update_time = now;
            })
            m.tasks;
    },
  )
]
