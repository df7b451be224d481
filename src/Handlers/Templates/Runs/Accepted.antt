-- ===== src/Handlers/Templates/Runs/Accepted.antt =====
-- server/src/handlers/template_handler.cpp: the job of a template that is run as a job.
use task_hub.Template.Types.{TaskTemplate}
use task_hub.Execution.Remote.{text_member, text_of_json}
use task_hub.Dag.Service.{
  ServiceCalls, array_member, object_member, inject_run_id, inject_into_items, inject_into_task,
  tasks_of_body, run_dag, dag_failed, DagResult, dag_config_from_json, Mark,
}
use task_hub.Handlers.Http.{Request, Response, respond_ok}
use task_hub.Handlers.Templates.{TemplateServer, json_calls}
use task_hub.Handlers.Templates.Runs.{
  Asked, refused, broken, rendered, ask, task_entry, task_entries, task_list_of, run_template_async,
  prepared, short_refusal,
}
use task_hub.Json.{
  Json, Items, nil, cons, Fields, array, string, object, object_of, find_field, set_field,
  find_field-set_field, null,
}
use task_hub.Prelude.{
  Text, text, text_eq, Text-Eq, =?_refl, none, some, List, [], ◌∷◌, ◌≡◌, ◌⊎◌, inl, inr, arith, refl,
  ◌>>=◌, >>=-some, Option-cases, false, subst, ◌=?◌, sym,
}

-- A task that has a text id, and the run id, and the entry of an answer that names it.
pub record IsTaskOf (run_id : Text) (j entry : Json) : Type 0 where
  pub fields : Fields
  pub is_object : j ≡ object fields
  pub id : Text
  pub has_id : find_field (text "id") fields ≡ some (string id)
  pub has_run_id : find_field (text "run_id") fields ≡ some (string run_id)
  pub is_named : entry ≡ object_of ((text "logical", string id) ∷ (text "task_id", string id) ∷ [])

abbrev pub AreTasksOf : Text → Items → Items → Type 0
AreTasksOf run_id nil nil = Unit {0}
AreTasksOf run_id (cons j js) (cons e es) = IsTaskOf run_id j e × AreTasksOf run_id js es
AreTasksOf run_id _ _ = ⊥

text_of_json-some : (j : Json) (s : Text) → text_of_json j ≡ some s → j ≡ string s
text_of_json-some (string x) s e = ground (arith, e)
text_of_json-some _ s e = cc

text_member-some :
    (k s : Text) (fs : Fields)
    → text_member k (object fs) ≡ some s
    → find_field k fs ≡ some (string s)
unfolding text_member
text_member-some k s fs e =
    let (j, found, is_text) = >>=-some (find_field k fs) text_of_json s e in
    ground (arith, found, text_of_json-some j s is_text)

text_of_entry :
    (j entry : Json)
    → task_entry j ≡ some entry
    → (s : Text) × (text_member (text "id") j ≡ some s)
      × (entry ≡ object_of ((text "logical", string s) ∷ (text "task_id", string s) ∷ []))
unfolding task_entry
text_of_entry j entry e =
    let (s, found, e') = >>=-some (text_member (text "id") j) _ entry e in
    (s, found, ground (arith, e'))

injected_task :
    (run_id : Text) (j entry k : Json)
    → task_entry j ≡ some entry
    → inject_into_task run_id j ≡ some k
    → IsTaskOf run_id k entry
unfolding inject_into_task text_eq task_entry text_member
injected_task run_id (object fs) entry k listed e =
    let (s, found', named) = text_of_entry (object fs) entry listed in
    let found = text_member-some (text "id") s fs found' in
    let fs' = set_field (text "run_id") (string run_id) fs in
    record {
      fields = fs';
      is_object = ground (arith, e);
      id = s;
      has_id =
          ground
            (arith, find_field-set_field (text "run_id") (text "id") (string run_id) fs, found);
      has_run_id = ground (
        arith,
        find_field-set_field (text "run_id") (text "run_id") (string run_id) fs,
        =?_refl (text "run_id"),
      );
      is_named = named;
    }
injected_task run_id null entry k listed e = cc
injected_task run_id (Json.string x) entry k listed e = cc
injected_task run_id _ entry k listed e = cc

injected_tasks :
    (run_id : Text) (js entries ks : Items)
    → task_entries js ≡ some entries
    → inject_into_items run_id js ≡ some ks
    → AreTasksOf run_id ks entries
unfolding task_entries inject_into_items
injected_tasks run_id nil entries ks listed e =
    let a : nil ≡ ks = ground (arith, e) in
    let b : nil ≡ entries = ground (arith, listed) in
    subst (λ (xs : Items). AreTasksOf run_id xs entries) a
      (subst (λ (es : Items). AreTasksOf run_id nil es) b tt)
injected_tasks run_id (cons j js) entries ks listed e =
    let (entry, first, l') = >>=-some (task_entry j) _ entries listed in
    let (rest, more, l'') = >>=-some (task_entries js) _ entries l' in
    let (k, put, e') = >>=-some (inject_into_task run_id j) _ ks e in
    let (others, puts, e'') = >>=-some (inject_into_items run_id js) _ ks e' in
    let a : cons k others ≡ ks = ground (arith, e'') in
    let b : cons entry rest ≡ entries = ground (arith, l'') in
    subst (λ (xs : Items). AreTasksOf run_id xs entries) a
      (subst (λ (es : Items). AreTasksOf run_id (cons k others) es) b
        (injected_task run_id j entry k first put, injected_tasks run_id js rest others more puts))

-- The body of a job, and the entries that name its tasks: a list of tasks, each with a text id and
-- the run id, or one such task, or neither.
pub data IsBodyOf (run_id : Text) (b : Fields) (entries : Items) : Type 0 where
  tasks :
      (js : Items)
      → array_member (text "tasks") (object b) ≡ some js
      → AreTasksOf run_id js entries
      → IsBodyOf run_id b entries
  task :
      (ts : Fields)
      → object_member (text "task") (object b) ≡ some ts
      → AreTasksOf run_id (cons (object ts) nil) entries
      → IsBodyOf run_id b entries
  neither :
      tasks_of_body (object b) ≡ none
      → AreTasksOf run_id (cons (object b) nil) entries
      → IsBodyOf run_id b entries

array_member-other :
    (k j : Text) (v : Json) (fs : Fields)
    → (j =? k) ≡ false
    → array_member k (object (set_field j v fs)) ≡ array_member k (object fs)
unfolding array_member
array_member-other k j v fs e = rw (find_field-set_field j k v fs, e) refl

object_member-other :
    (k j : Text) (v : Json) (fs : Fields)
    → (j =? k) ≡ false
    → object_member k (object (set_field j v fs)) ≡ object_member k (object fs)
unfolding object_member
object_member-other k j v fs e = rw (find_field-set_field j k v fs, e) refl

array_member-same :
    (k : Text) (js : Items) (fs : Fields)
    → array_member k (object (set_field k (array js) fs)) ≡ some js
unfolding array_member
array_member-same k js fs = rw (find_field-set_field k k (array js) fs, =?_refl k) refl

object_member-same :
    (k : Text) (ts fs : Fields) → object_member k (object (set_field k (object ts) fs)) ≡ some ts
unfolding object_member
object_member-same k ts fs = rw (find_field-set_field k k (object ts) fs, =?_refl k) refl

injected_body :
    (run_id : Text) (b b' : Fields) (entries : Items)
    → task_list_of b ≡ some entries
    → inject_run_id run_id b ≡ some b'
    → IsBodyOf run_id b' entries
unfolding task_list_of inject_run_id tasks_of_body text_eq
injected_body run_id b b' entries listed e =
    elim (Option-cases (array_member (text "tasks") (object b))) [
      | inr (js, n) ↦
          let l : task_entries js ≡ some entries = ground (arith, n, listed) in
          let made : (inject_into_items run_id js >>= λ (xs : Items).
          some (set_field (text "tasks") (array xs) b))
              ≡ some b' =
            ground (arith, n, e) in
          let (items, injected, e') = >>=-some (inject_into_items run_id js) _ b' made in
          let same : set_field (text "tasks") (array items) b ≡ b' = ground (arith, e') in
          tasks items (rw (← same) (array_member-same (text "tasks") items b))
            (injected_tasks run_id js entries items l injected)
      | inl n ↦ elim (Option-cases (object_member (text "task") (object b))) [
        | inr (ts, m) ↦
            let l : (task_entry (object ts) >>= λ (x : Json). some (cons x nil)) ≡ some entries =
              ground (arith, n, m, listed) in
            let (entry, first, l') = >>=-some (task_entry (object ts)) _ entries l in
            let one_entry : cons entry nil ≡ entries = ground (arith, l') in
            let ts' = set_field (text "run_id") (string run_id) ts in
            let same : set_field (text "task") (object ts') b ≡ b' = ground (arith, n, m, e) in
            task ts' (rw (← same) (object_member-same (text "task") ts' b)) (
              subst (λ (es : Items). AreTasksOf run_id (cons (object ts') nil) es) one_entry
                (
                  injected_task run_id (object ts) entry (object ts') first
                      (unfold inject_into_task in refl),
                  tt,
                ))
        | inl m ↦
            let l : (task_entry (object b) >>= λ (x : Json). some (cons x nil)) ≡ some entries =
              ground (arith, n, m, listed) in
            let (entry, first, l') = >>=-some (task_entry (object b)) _ entries l in
            let one_entry : cons entry nil ≡ entries = ground (arith, l') in
            let own = set_field (text "run_id") (string run_id) b in
            let same : own ≡ b' = ground (arith, n, m, e) in
            let list = array_member-other (text "tasks") (text "run_id") (string run_id) b refl in
            let one = object_member-other (text "task") (text "run_id") (string run_id) b refl in
            rw (← same) (
              neither (ground (arith, list, one, n, m)) (
                subst (λ (es : Items). AreTasksOf run_id (cons (object own) nil) es) one_entry
                  (
                    injected_task run_id (object b) entry (object own) first
                        (unfold inject_into_task in refl),
                    tt,
                  )))
      ]
    ]

Asked-cases :
    (a : Asked)
    → (((r : Response) × (a ≡ refused r)) ⊎ ((j : Json) × (a ≡ broken j)))
      ⊎ ((id : Text) × (t : TaskTemplate) × (made : Json) × (j : Json) × (a ≡ rendered id t made j))
Asked-cases (refused r) = inl (inl (r, refl))
Asked-cases (broken j) = inl (inr (j, refl))
Asked-cases (rendered id t made j) = inr (id, t, made, j, refl)

-- A job that `/template/run_async` hands over has what its answer says: the answer has the run id of
-- the job and a list of entries; the body of the job is a list of tasks, one task, or a task itself,
-- where every task has a text id and that run id; and the entries name the ids of the tasks, in their
-- order.
pub run_template_async-IsBodyOf :
    (s : TemplateServer) (req : Request) (r : Response) (b : Fields) (run_id : Text)
    → run_template_async s req ≡ (r, some (b, run_id))
    → (entries : Items) × IsBodyOf run_id b entries
      × (r
          ≡ respond_ok
              (json_calls s)
              (object_of ((text "run_id", string run_id) ∷ (text "task_ids", array entries) ∷ [])))
unfolding run_template_async
run_template_async-IsBodyOf s req r b run_id e = elim (Asked-cases (ask s (short_refusal s) req)) [
  | inl n ↦ elim n [ inl (x, m) ↦ ground (arith, m, e) | inr (x, m) ↦ ground (arith, m, e) ]
  | inr (id, t, made, j, n) ↦ elim (Option-cases (prepared s id t made j)) [
    | inl p ↦ ground (arith, n, p, e)
    | inr ((own, b0), p) ↦ elim (Option-cases (task_list_of b0)) [
      | inl l ↦ ground (arith, n, p, l, e)
      | inr (entries, l) ↦ elim (Option-cases (inject_run_id own b0)) [
        | inl i ↦ ground (arith, n, p, l, i, e)
        | inr (b1, i) ↦
            let facts : (b1 ≡ b) × (own ≡ run_id) = ground (arith, n, p, l, i, e) in
            let answer : respond_ok (json_calls s)
                  (object_of ((text "run_id", string own) ∷ (text "task_ids", array entries) ∷ []))
                ≡ r =
              ground (arith, n, p, l, i, e) in
            (
              entries,
              rw (← facts.0, ← facts.1) (injected_body own b0 b1 entries l i),
              rw (← facts.1) (sym answer),
            )
      ]
    ]
  ]
]

-- Such a job that is a task itself comes to nothing: the service answers that it has no tasks.
pub task_alone_fails :
    (c : ServiceCalls) (b : Fields) (source run_id : Text) (d : DagResult) (marks : List Mark)
    → tasks_of_body (object b) ≡ none
    → run_dag c (object b) source run_id ≡ some (d, marks)
    → d ≡ dag_failed (text "missing or invalid tasks array or object")
unfolding run_dag
task_alone_fails c b source run_id d marks n e =
    elim (Option-cases (dag_config_from_json c (object b) [])) [
      | inl m ↦ ground (arith, n, m, e)
      | inr (cfg, m) ↦ ground (arith, n, m, e)
    ]
