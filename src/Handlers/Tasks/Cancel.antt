-- ===== src/Handlers/Tasks/Cancel.antt =====
-- server/src/handlers/task_handler.cpp: what a request to cancel a task does to the tasks.
use task_hub.Core.Manager.Ids.{get_task_in-change_task}
use task_hub.Core.Manager.{Manager, Statement, get_task, get_task_in, update_task}
use task_hub.Core.Task.{Task, TaskStatus}
use task_hub.Handlers.Tasks.{TaskServer, cancel_task, cancel_known, is_finished}
use task_hub.Prelude.{
  ℕ, Text, ◌==◌, ==→eq, ◌≡◌, true, none, some, [], ◌∷◌, List, arith, if◌then◌else◌, inl, inr,
  Option-cases, Bool-cases, Text-Eq, pos,
}

-- The task that an id has after a request to cancel it: a task that is pending or running is marked
-- at this time, and nothing else of it changes.
abbrev pub marked_for_cancel : Text → Task → Task
marked_for_cancel now t = elim t.status [
  | TaskStatus.pending ↦ record t { cancel_flag = true; update_time = now }
  | TaskStatus.running ↦ record t { cancel_flag = true; update_time = now }
  | _ ↦ t
]

get_task_in-id : (id : ℕ) (ts : List Task) (t : Task) → get_task_in id ts ≡ some t → t.id ≡ id
unfolding get_task_in
get_task_in-id id [] t e = cc
get_task_in-id id (x ∷ ts) t e = ground (arith, ==→eq x.id id, get_task_in-id id ts t)

-- After a request to cancel the task of an id, which its digits give as an int, each id has the task
-- that it had, but that the task of the request, if it is pending or running, is marked; whether or not
-- the statement that stores it is done.
pub get_task-cancel_task :
    (s : TaskServer) (sql : Statement) (digits : Text) (id : ℕ) (m : Manager) (j : ℕ)
    → s.service.texts.stoi digits ≡ some (pos id)
    → get_task j (cancel_task s sql digits m).1 ≡ (
        if j == id
        then elim (get_task id m) [ none ↦ none | some t ↦ some (marked_for_cancel s.now t) ]
        else get_task j m)
unfolding cancel_task cancel_known get_task update_task
get_task-cancel_task s sql digits id m j read = elim (Option-cases (get_task_in id m.tasks)) [
  | inl e ↦ ground (arith, read, e, ==→eq j id)
  | inr (t, e) ↦
      let own = get_task_in-id id m.tasks t e in
      let u = record t { cancel_flag = true; update_time = s.now } in
      let other =
        get_task_in-change_task j id (λ (x : Task). u) m.tasks (λ x q. ground (arith, own)) in
      elim (Bool-cases (is_finished t.status)) [
        | inl f ↦ ground (arith, read, e, f, ==→eq j id)
        | inr f ↦ ground (arith, read, e, f, own, other, ==→eq j id, ==→eq id j)
      ]
]
