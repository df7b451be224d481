-- ===== src/Scheduler/Jobs/Trigger.antt =====
-- server/src/scheduler/cron_scheduler.cpp: a job that was triggered.
use task_hub.Scheduler.Jobs.Due.{scan_jobs-finds}
use task_hub.Scheduler.Cron.{CronExpr, Tm, next_minute, check_from}
use task_hub.Scheduler.Jobs.{CronJob, next_after, trigger, set_at, scan_jobs}
use task_hub.Prelude.{
  ℕ, ◌≤◌, ◌≡◌, ◌<◌, [], ◌∷◌, some, List, suc, if◌then◌else◌, zero, get_elem?, length, Memᴰ, arith,
  ◌+◌, ◌==◌, ◌≢◌, refl, Option-cases, inl, inr, get_elem?-lt, ◌*◌, ◌/◌,
}

module _ {ℓ} {A : Type ℓ} where
  get_elem?-set_at :
      (i k : ℕ) (a : A) (xs : List A)
      → i < length xs
      → get_elem? (set_at i a xs) k ≡ (if k == i then some a else get_elem? xs k)
  unfolding set_at
  get_elem?-set_at i k a [] h = elim h [ ]
  get_elem?-set_at zero zero a (x ∷ xs) h = refl
  get_elem?-set_at zero (suc k) a (x ∷ xs) h = ground arith
  get_elem?-set_at (suc i) zero a (x ∷ xs) h = ground arith
  get_elem?-set_at (suc i) (suc k) a (x ∷ xs) h = ground (arith, get_elem?-set_at i k a xs)

module _ (localtime : ℕ → Tm) where
  check_from-ge : (e : CronExpr) (checks m t : ℕ) → check_from localtime e checks m ≡ some t → m ≤ t
  unfolding check_from
  check_from-ge e zero m t h = cc
  check_from-ge e (suc checks) m t h = ground (arith, check_from-ge e checks (suc m) t)

  next_after-gt : (e : CronExpr) (now t : ℕ) → next_after localtime e now ≡ some t → now < t
  unfolding next_after next_minute
  next_after-gt e now t h =
      elim (Option-cases (check_from localtime e (365 * 24 * 60) (now / 60000000000 + 1))) [
        | inl q ↦ ground (arith, q)
        | inr (m, q) ↦
            let l = check_from-ge e (365 * 24 * 60) (now / 60000000000 + 1) m q in
            let z : m * 60000000000 ≡ t = ground (arith, q) in omega (arith, l, z)
      ]

  module _ {P : Type 0} where
    -- The job of an index within the jobs is dispatched as it was, and only its next time changes,
    -- to one that is later than now: no scan before that time finds it again.
    pub trigger_once :
        (now i : ℕ) (js : List (CronJob P)) (job : CronJob P) (ks : List (CronJob P))
        → i < length js
        → trigger localtime now i js ≡ some (job, ks)
        → (get_elem? js i ≡ some job)
          × ((k : ℕ) → k ≢ i → get_elem? ks k ≡ get_elem? js k)
          × ((t : ℕ) × (get_elem? ks i ≡ some (record job { next_time = t }))
              × (now < t)
              × ((later : ℕ) → later < t → ¬ Memᴰ i (scan_jobs later ks).pending_indices))
    unfolding trigger
    trigger_once now i [] job ks h e = cc
    trigger_once now i (x ∷ xs) job ks h e =
        let (j, at, m) = get_elem?-lt (x ∷ xs) i h in
        elim (Option-cases (next_after localtime j.cron_expr now)) [
          | inl q ↦ ground (arith, at, q)
          | inr (t, q) ↦
              let new : CronJob P = record j { next_time = t } in
              let same : j ≡ job = ground (arith, at, q) in
              let put : set_at i new (x ∷ xs) ≡ ks = ground (arith, at, q) in
              let there = get_elem?-set_at i i new (x ∷ xs) h in
              let found : get_elem? ks i ≡ some new = ground (arith, put, there) in
              (
                ground (arith, at, same),
                λ k n. ground (arith, put, get_elem?-set_at i k new (x ∷ xs) h),
                (
                  t,
                  ground (arith, found, same),
                  next_after-gt j.cron_expr now t q,
                  λ later l w.
                      let (y, f, u, v) = ((scan_jobs-finds later ks).0 i).0 w in
                      ground (arith, found, f, v),
                ),
              )
        ]
