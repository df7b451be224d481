-- ===== src/Handlers/Crons/Added.antt =====
-- server/src/handlers/cron_handler.cpp: what a request to make a job does to the jobs.
use task_hub.Handlers.Crons.{create_job, add_read, job_request, job_id}
use task_hub.Handlers.CronBodies.{CronServer, Payload, Read, refuses, reads, read_payload}
use task_hub.Handlers.Http.{Request, Response, respond_ok, respond}
use task_hub.Json.{boolean, string, object_of}
use task_hub.Scheduler.Cron.{CronExpr, Parsed, parsed, rejected, undefined}
use task_hub.Scheduler.Jobs.{CronJob, add_job, next_after}
use task_hub.Prelude.{
  ℕ, Text, text, Text-Eq, ◌||◌, ◌≡◌, ◌⊎◌, ◌++◌, true, Option, none, some, List, [], ◌∷◌, is_empty,
  arith, refl, inl, inr, Option-cases, Bool-cases, subst, pos,
}

-- One more job, the last one: it has the id of the answer, the name and the schedule of the request,
-- is enabled, and has the next time of its schedule.
pub record IsAdded (s : CronServer) (r : Response) (jobs jobs' : List (CronJob Payload))
    : Type 0 where
  pub job : CronJob Payload
  pub added : jobs' ≡ jobs ++ job ∷ []
  pub has_id : job.id ≡ job_id s
  pub is_on : job.enabled ≡ true
  pub is_parsed : s.parse_spec job.spec ≡ parsed job.cron_expr
  pub is_next : next_after s.localtime job.cron_expr s.now ≡ some job.next_time
  pub answer :
      r
      ≡ respond_ok s.json
          (object_of ((text "ok", boolean true) ∷ (text "job_id", string job.id) ∷ []))

add_read-IsAdded :
    (s : CronServer) (req : Request) (name spec : Text) (e : CronExpr) (next : ℕ) (o : Option Read)
    (jobs : List (CronJob Payload))
    → s.parse_spec spec ≡ parsed e
    → next_after s.localtime e s.now ≡ some next
    → let (r, jobs') = add_read s req name spec e next o jobs in
      ((jobs' ≡ jobs) × (r.status ≡ pos 400)) ⊎ IsAdded s r jobs jobs'
unfolding add_read add_job respond
add_read-IsAdded s req name spec e next none jobs p n = inl (refl, refl)
add_read-IsAdded s req name spec e next (some (refuses m)) jobs p n = inl (refl, refl)
add_read-IsAdded s req name spec e next (some (reads payload)) jobs p n = inr (record {
  job = record {
    id = job_id s;
    name = name;
    spec = spec;
    payload = payload;
    cron_expr = e;
    next_time = next;
    enabled = true;
  };
  added = refl;
  has_id = refl;
  is_on = refl;
  is_parsed = p;
  is_next = n;
  answer = refl;
})

Parsed-cases :
    (p : Parsed CronExpr) → ((e : CronExpr) × (p ≡ parsed e)) ⊎ ((p ≡ rejected) ⊎ (p ≡ undefined))
Parsed-cases (parsed e) = inl (e, refl)
Parsed-cases rejected = inr (inl refl)
Parsed-cases undefined = inr (inr refl)

-- A request to make a job is refused with the status 400 and leaves the jobs as they are, or adds one: with the id of the answer, enabled,
-- and at the next time of its schedule, which is the one that is parsed.
pub create_job-IsAdded :
    (s : CronServer) (req : Request) (jobs jobs' : List (CronJob Payload)) (r : Response)
    → create_job s req jobs ≡ some (r, jobs')
    → ((jobs' ≡ jobs) × (r.status ≡ pos 400)) ⊎ IsAdded s r jobs jobs'
unfolding create_job respond
create_job-IsAdded s req jobs jobs' r h = elim (Option-cases (s.parse req.body)) [
  | inl n ↦ inl (ground (arith, n), ground (arith, n))
  | inr (b, n) ↦ elim (Option-cases (job_request s b)) [
    | inl m ↦ inl (ground (arith, n, m), ground (arith, n, m))
    | inr ((name, spec, target), m) ↦ elim (Bool-cases (is_empty name || is_empty spec)) [
      | inl k ↦ inl (ground (arith, n, m, k), ground (arith, n, m, k))
      | inr k ↦ elim (Parsed-cases (s.parse_spec spec)) [
        | inr (inl p) ↦ inl (ground (arith, n, m, k, p), ground (arith, n, m, k, p))
        | inr (inr p) ↦ ground (arith, n, m, k, p)
        | inl (e, p) ↦ elim (Option-cases (next_after s.localtime e s.now)) [
          | inl q ↦ inl (ground (arith, n, m, k, p, q), ground (arith, n, m, k, p, q))
          | inr (next, q) ↦
              let made = add_read s req name spec e next (read_payload s target name b) jobs in
              let same : made ≡ (r, jobs') = ground (arith, n, m, k, p, q) in
              subst
                (λ (x : Response × List (CronJob Payload)).
                  ((x.1 ≡ jobs) × (x.0.status ≡ pos 400)) ⊎ IsAdded s x.0 jobs x.1)
                same
                (add_read-IsAdded s req name spec e next (read_payload s target name b) jobs p q)
        ]
      ]
    ]
  ]
]
