-- ===== src/Core/Manager/Ids.antt =====
-- server/src/core/task_manager.cpp: ids are given once, and a task is found by its id.
use task_hub.Core.Manager.{
  Manager, Row, Statement, change_task, max_row_id, task_of_row, load_from_db, add_task,
  set_running, update_task, set_finished, get_task, get_task_in, new_task,
}
use task_hub.Prelude.{
  ℕ, Text, ◌≤◌, ◌≡◌, [], ◌∷◌, ◌++◌, ℤ, Bool, Option, List, map, ◌==◌, ◌+◌, ◌<◌, bit, refl, arith,
  some, none, Option-cases, inl, inr, if◌then◌else◌,
}
use task_hub.Json.{Json, JsonCalls}
use task_hub.Core.Task.{Task, TaskStatus}

-- How often an id occurs.
unfoldable pub times : ℕ → List Task → ℕ
times id [] = 0
times id (t ∷ ts) = bit (t.id == id) + times id ts

times-append : (id : ℕ) (ts us : List Task) → times id (ts ++ us) ≡ times id ts + times id us
unfolding times
times-append id [] us = omega arith
times-append id (t ∷ ts) us = omega (arith, times-append id ts us)

times-change_task :
    (id j : ℕ) (f : Task → Task) (ts : List Task)
    → ((t : Task) → t.id ≡ j → (f t).id ≡ j)
    → times id (change_task j f ts) ≡ times id ts
unfolding times change_task
times-change_task id j f [] h = refl
times-change_task id j f (t ∷ ts) h = ground (arith, times-change_task id j f ts h, h t)

unfoldable pub row_times : ℕ → List Row → ℕ
row_times id [] = 0
row_times id (r ∷ rs) = bit (r.id == id) + row_times id rs

times-task_of_row :
    (parse : Text → Option Json) (id : ℕ) (rs : List Row)
    → times id (map (task_of_row parse) rs) ≡ row_times id rs
unfolding times row_times task_of_row
times-task_of_row parse id [] = refl
times-task_of_row parse id (r ∷ rs) = omega (arith, times-task_of_row parse id rs)

max_row_id_ge : (n : ℕ) (rs : List Row) → n ≤ max_row_id n rs
unfolding max_row_id
max_row_id_ge n [] = omega arith
max_row_id_ge n (r ∷ rs) = ground (arith, max_row_id_ge n rs, max_row_id_ge r.id rs)

row_times-max_row_id : (id n : ℕ) (rs : List Row) → max_row_id n rs < id → row_times id rs ≡ 0
unfolding row_times max_row_id
row_times-max_row_id id n [] h = refl
row_times-max_row_id id n (r ∷ rs) h = ground (
  arith,
  row_times-max_row_id id n rs,
  row_times-max_row_id id r.id rs,
  max_row_id_ge n rs,
  max_row_id_ge r.id rs,
)

-- No id occurs twice, and none from the next one on occurs.
abbrev pub HasIds : Manager → Type 0
HasIds m = (id : ℕ) → (times id m.tasks ≤ 1) × (m.next_id ≤ id → times id m.tasks ≡ 0)

-- What the calls make of an empty manager, into which the rows of a table with a primary key are
-- loaded.
pub data Called (c : JsonCalls) (parse : Text → Option Json) : Manager → Type 0 where
  loaded :
      (rows : List Row)
      → ((id : ℕ) → row_times id rows ≤ 1)
      → Called c parse (load_from_db parse (some rows) (record { tasks = []; next_id = 1 }))
  added :
      {m : Manager} (now name : Text) (type : ℤ) (params : Json)
      → Called c parse m
      → Called c parse (add_task c now name type params m).1
  ran :
      {m : Manager} (now : Text) (sql : Statement) (id : ℕ)
      → Called c parse m
      → Called c parse (set_running now sql id m).1
  updated :
      {m : Manager} (sql : Statement) (t : Task)
      → Called c parse m
      → Called c parse (update_task sql t m).1
  finished :
      {m : Manager} (now : Text) (sql : Statement) (id : ℕ) (ok : Bool) (exit_code : ℤ)
      (output error_msg : Text)
      → Called c parse m
      → Called c parse (set_finished now sql id ok exit_code output error_msg m).1

new_task_lem :
    (c : JsonCalls) (now name : Text) (type : ℤ) (params : Json) (id : ℕ) (t : Task)
    → new_task c now name type params id ≡ some t
    → (t.id ≡ id) × (t.name ≡ name) × (t.params ≡ params) × (t.status ≡ TaskStatus.pending)
unfolding new_task
new_task_lem c now name type params id t h = ground arith

change_task-none :
    (j : ℕ) (f : Task → Task) (ts : List Task) → get_task_in j ts ≡ none → change_task j f ts ≡ ts
unfolding change_task get_task_in
change_task-none j f [] h = refl
change_task-none j f (t ∷ ts) h = ground (arith, change_task-none j f ts)

pub get_task_in-change_task :
    (id j : ℕ) (f : Task → Task) (ts : List Task)
    → ((t : Task) → t.id ≡ j → (f t).id ≡ j)
    → get_task_in id (change_task j f ts)
      ≡ elim (get_task_in id ts) [ none ↦ none | some t ↦ some (if j == id then f t else t) ]
unfolding get_task_in change_task
get_task_in-change_task id j f [] h = refl
get_task_in-change_task id j f (t ∷ ts) h = ground (arith, get_task_in-change_task id j f ts h, h t)

module _ (c : JsonCalls) (parse : Text → Option Json) where
  -- After any calls: no two tasks have the same id, and none has the next id or one after it, if
  -- the rows that were loaded at the start have no id twice.
  pub Called-keeps_ids : {m : Manager} → Called c parse m → HasIds m
  unfolding load_from_db add_task set_running update_task set_finished times
  Called-keeps_ids (loaded rows u) id =
      ground (arith, u id, times-task_of_row parse id rows, row_times-max_row_id id 0 rows)
  Called-keeps_ids (added {m} now name type params h) id =
      elim (Option-cases (new_task c now name type params m.next_id)) [
        | inl e ↦ ground (arith, e, Called-keeps_ids h id)
        | inr (t, e) ↦ ground (
          arith,
          e,
          Called-keeps_ids h id,
          new_task_lem c now name type params m.next_id t e,
          times-append id m.tasks (t ∷ []),
        )
      ]
  Called-keeps_ids (ran {m} now sql j h) id = ground (
    arith,
    Called-keeps_ids h id,
    times-change_task id j (λ t. record t { status = TaskStatus.running; update_time = now })
        m.tasks (λ t e. e),
  )
  Called-keeps_ids (updated {m} sql t h) id =
      ground
        (arith, Called-keeps_ids h id, times-change_task id t.id (λ u. t) m.tasks (λ u e. refl))
  Called-keeps_ids (finished {m} now sql j ok e o r h) id = ground (
    arith,
    Called-keeps_ids h id,
    times-change_task id j
        (λ t. record t {
          status = if ok then TaskStatus.success else TaskStatus.failed;
          exit_code = e;
          last_output = o;
          last_error = r;
          update_time = now;
        })
        m.tasks (λ t q. q),
  )

-- The three calls that change a task change the one that is found by the id, as they say, and no
-- other id finds another task than before: nothing changes for an id that no task has.
pub get_task_after_change :
    (now : Text) (sql : Statement) (id : ℕ) (ok : Bool) (exit_code : ℤ) (output error_msg : Text)
    (u : Task) (m : Manager) (j : ℕ)
    → (get_task j (update_task sql u m).1
        ≡ elim (get_task j m) [ none ↦ none | some t ↦ some (if u.id == j then u else t) ])
      × (get_task j (set_running now sql id m).1 ≡ elim (get_task j m) [
        | none ↦ none
        | some t ↦
            some
              (if id == j then record t { status = TaskStatus.running; update_time = now } else t)
      ])
      × (get_task j (set_finished now sql id ok exit_code output error_msg m).1
          ≡ elim (get_task j m) [
            | none ↦ none
            | some t ↦ some (
                if id == j
                then record t {
                  status = if ok then TaskStatus.success else TaskStatus.failed;
                  exit_code = exit_code;
                  last_output = output;
                  last_error = error_msg;
                  update_time = now;
                }
                else t)
          ])
unfolding update_task set_running set_finished get_task
get_task_after_change now sql id ok exit_code output error_msg u m j = (
  ground (arith, get_task_in-change_task j u.id (λ t. u) m.tasks (λ t e. refl)),
  ground (
    arith,
    get_task_in-change_task j id (λ t. record t { status = TaskStatus.running; update_time = now })
        m.tasks (λ t e. e),
  ),
  ground (
    arith,
    get_task_in-change_task j id
        (λ t. record t {
          status = if ok then TaskStatus.success else TaskStatus.failed;
          exit_code = exit_code;
          last_output = output;
          last_error = error_msg;
          update_time = now;
        })
        m.tasks (λ t e. e),
  ),
)
