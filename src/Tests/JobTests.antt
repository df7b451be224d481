-- ===== src/Tests/JobTests.antt =====
-- A job that is due, and one that is not.
use task_hub.Scheduler.Jobs.Trigger.{trigger_once}
use task_hub.Scheduler.Jobs.Due.{scan_jobs-finds}
use task_hub.Scheduler.Jobs.{CronJob, scan_jobs, trigger, next_after, set_at}
use task_hub.Prelude.{
  ℕ, ◌≤◌, ◌≡◌, ◌↔◌, ◌≢◌, ◌<◌, [], ◌∷◌, some, true, List, arith, Memᴰ, text, get_elem?, false,
}
use task_hub.Tests.CronTests.{clock, five_past, next_found}

abbrev job : CronJob ℕ
job = record {
  id = text "a";
  name = text "a";
  spec = text "5 0,1 1 * *";
  payload = 0;
  cron_expr = five_past;
  next_time = 0;
  enabled = true;
}

abbrev jobs : List (CronJob ℕ)
jobs = job ∷ record job { id = text "b"; enabled = false } ∷ []

scan_jobs-finds_example :
    ((k : ℕ)
      → Memᴰ k (scan_jobs 3 jobs).pending_indices
        ↔ ((j : CronJob ℕ) × (get_elem? jobs k ≡ some j) × (j.enabled ≡ true) × (j.next_time ≤ 3)))
    × ((j : CronJob ℕ)
        → Memᴰ j jobs
        → j.enabled ≡ true
        → (scan_jobs 3 jobs).nearest_next ≤ j.next_time)
scan_jobs-finds_example = scan_jobs-finds 3 jobs

abbrev later_jobs : List (CronJob ℕ)
later_jobs =
    record job { next_time = 300000000000 } ∷ record job { id = text "b"; enabled = false } ∷ []

triggered : trigger clock 0 0 jobs ≡ some (job, later_jobs)
unfolding trigger next_after set_at
triggered = ground (arith, next_found)

trigger_once_example :
    (get_elem? jobs 0 ≡ some job)
    × ((k : ℕ) → k ≢ 0 → get_elem? later_jobs k ≡ get_elem? jobs k)
    × ((t : ℕ) × (get_elem? later_jobs 0 ≡ some (record job { next_time = t }))
        × (0 < t)
        × ((later : ℕ) → later < t → ¬ Memᴰ 0 (scan_jobs later later_jobs).pending_indices))
trigger_once_example = trigger_once clock 0 0 jobs job later_jobs (omega arith) triggered
