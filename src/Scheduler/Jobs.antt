-- ===== src/Scheduler/Jobs.antt =====
-- server/src/scheduler/cron_job.cpp and cron_scheduler.cpp: the jobs, and which of them are due. A
-- time is in nanoseconds. What a job dispatches is of any type.
use task_hub.Prelude.{
  ℕ, Text, ◌++◌, ◌*◌, ◌≤◌, [], ◌∷◌, Bool, false, true, not, some, none, Option, List, suc,
  if◌then◌else◌, zero, ◌=?◌, Text-Eq, ◌&&◌, get_elem?, leb, ltb, length, text, is_empty,
}
use task_hub.Scheduler.Cron.{CronExpr, Tm, Parsed, parse, next_minute}
pub mod Due
pub mod Trigger

pub record CronJob (P : Type 0) : Type 0 where
  pub id : Text
  pub name : Text
  pub spec : Text
  pub payload : P
  pub cron_expr : CronExpr
  pub next_time : ℕ
  pub enabled : Bool

pub record ScanResult : Type 0 where
  pub has_job : Bool
  pub nearest_next : ℕ
  pub pending_indices : List ℕ

module _ {P : Type 0} where
  -- `addJob`, with the printer of numbers: a job without an id is given one by the number of jobs.
  unfoldable pub add_job : (ℕ → Text) → CronJob P → List (CronJob P) → Text × List (CronJob P)
  add_job print job jobs =
      let id = (if is_empty job.id then text "job_" ++ print (suc (length jobs)) else job.id) in
      (id, jobs ++ record job { id = id } ∷ [])

  unfoldable pub remove_job : Text → List (CronJob P) → List (CronJob P)
  remove_job id [] = []
  remove_job id (j ∷ js) = let rest = remove_job id js in if j.id =? id then rest else j ∷ rest

  -- The loop of the scan: the index of the next job, whether a time has been noted, and the result.
  unfoldable pub scan_from : ℕ → ℕ → List (CronJob P) → Bool → ScanResult → ScanResult
  scan_from now i [] init r = r
  scan_from now i (j ∷ js) init r =
      let due = (if leb j.next_time now then r.pending_indices ++ i ∷ [] else r.pending_indices) in
      let nearest =
        (if init && not (ltb j.next_time r.nearest_next) then r.nearest_next else j.next_time) in
      let without = scan_from now (suc i) js init r in
      let noted =
        scan_from now (suc i) js true
          (record r { pending_indices = due; nearest_next = nearest }) in
      if j.enabled then noted else without

  unfoldable pub scan_jobs : ℕ → List (CronJob P) → ScanResult
  scan_jobs now jobs =
      scan_from now 0 jobs false
        (record { has_job = not (is_empty jobs); nearest_next = 0; pending_indices = [] })

unfoldable pub set_at {ℓ} : {A : Type ℓ} → ℕ → A → List A → List A
set_at i a [] = []
set_at zero a (x ∷ xs) = a ∷ xs
set_at (suc i) a (x ∷ xs) = x ∷ set_at i a xs

module _ (localtime : ℕ → Tm) where
  -- `CronExpr::next`, in nanoseconds; `none` is its exception.
  unfoldable pub next_after : CronExpr → ℕ → Option ℕ
  next_after e now = elim (next_minute localtime e now) [
    | none ↦ none
    | some minute ↦ some (minute * 60000000000)
  ]

  module _ {P : Type 0} where
    -- The part of the loop that triggers the job of an index, under the lock: the job as it was is
    -- what is dispatched. The first job stands in for an index that is out of range; without a
    -- job, or when there is no next time, the loop ends the program.
    unfoldable pub trigger : ℕ → ℕ → List (CronJob P) → Option (CronJob P × List (CronJob P))
    trigger now i [] = none
    trigger now i (j ∷ js) = elim (get_elem? (j ∷ js) i) [
      | none ↦ some (j, j ∷ js)
      | some job ↦ elim (next_after job.cron_expr now) [
        | none ↦ none
        | some t ↦ some (job, set_at i (record job { next_time = t }) (j ∷ js))
      ]
    ]
