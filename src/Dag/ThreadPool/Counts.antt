-- ===== src/Dag/ThreadPool/Counts.antt =====
-- server/src/dag/dag_thread_pool.cpp: the counters of the pool are exact, its size is bounded, and
-- nothing is added to it once a stop has cleared the queues.
use task_hub.Dag.ThreadPool.Steps.{
  Step, posts, spawns, begins, takes, enters, returns, leaves, ends, flags, clears, joins, starts,
  Reach, here, next,
}
use task_hub.Dag.ThreadPool.{
  Phase, created, waiting, holding, busy, leaving, exited, serving, cleared, take_job, Queues, Pool,
  new_workers, take_from, queued_jobs, start, post, set_queue, queue_at, spawn, take_order,
  new_pool,
}
use task_hub.Prelude.{
  ℕ, ◌≤◌, ◌≡◌, List, ◌∷◌, Bool, bit, [], ◌+◌, All, false, length, true, ◌++◌, some, suc, arith,
  length-append, refl, zero, ◌⊎◌, none, drop,
}

module _ {Job : Type 0} where
  -- Between its two changes of `_activeWorkers`, and between those of `_busyWorkers`.
  abbrev pub is_alive : Phase Job → Bool
  is_alive created = false
  is_alive exited = false
  is_alive _ = true

  abbrev pub is_busy : Phase Job → Bool
  is_busy (busy j) = true
  is_busy _ = false

  unfoldable pub count : (Phase Job → Bool) → List (Phase Job) → ℕ
  count f [] = 0
  count f (w ∷ ws) = bit (f w) + count f ws

  count-append :
      (f : Phase Job → Bool) (xs : List (Phase Job)) (w : Phase Job) (ys : List (Phase Job))
      → count f (xs ++ w ∷ ys) ≡ count f xs + bit (f w) + count f ys
  unfolding count
  count-append f [] w ys = omega arith
  count-append f (x ∷ xs) w ys = omega (arith, count-append f xs w ys)

  count-exited :
      (f : Phase Job → Bool) (ws : List (Phase Job))
      → f exited ≡ false
      → All (λ w. w ≡ exited) ws
      → count f ws ≡ 0
  unfolding count
  count-exited f [] e h = refl
  count-exited f (w ∷ ws) e h = ground (arith, h.0, count-exited f ws e h.1)

module _ (Job : Type 0) where
  length-new_workers :
      (n : ℕ)
      → (length (new_workers {Job = Job} n) ≡ n)
        × (count is_alive (new_workers {Job = Job} n) ≡ 0)
        × (count is_busy (new_workers {Job = Job} n) ≡ 0)
  unfolding count
  length-new_workers zero = (refl, refl, refl)
  length-new_workers (suc n) = ground (arith, length-new_workers n)

module _ {Job : Type 0} where
  pub record IsCounted (p : Pool Job) : Type 0 where
    pub bounded : length p.workers ≤ p.max_workers
    pub counts_active : p.active_workers ≡ count is_alive p.workers
    pub counts_busy : p.busy_workers ≡ count is_busy p.workers
    pub stays_flagged : (p.stop_phase ≡ serving) ⊎ (p.stopping ≡ true)
    pub stays_clear : p.stop_phase ≡ cleared → queued_jobs p.queues ≡ 0

  abbrev pub Replaces : (v w : Phase Job) (ws vs : List (Phase Job)) → Type 0
  Replaces v w ws vs =
      (length vs ≡ length ws)
      × (count is_alive vs + bit (is_alive v) ≡ count is_alive ws + bit (is_alive w))
      × (count is_busy vs + bit (is_busy v) ≡ count is_busy ws + bit (is_busy w))

  replaced :
      (before : List (Phase Job)) (v w : Phase Job) (after : List (Phase Job))
      → Replaces v w (before ++ v ∷ after) (before ++ w ∷ after)
  replaced before v w after = ground (
    arith,
    length-append before (v ∷ after),
    length-append before (w ∷ after),
    count-append is_alive before v after,
    count-append is_alive before w after,
    count-append is_busy before v after,
    count-append is_busy before w after,
  )

  queued_jobs-set_queue :
      (q : Queues Job) (i : ℕ) (js : List Job)
      → queued_jobs (set_queue i js q) + length (queue_at i q) ≡ queued_jobs q + length js
  unfolding queued_jobs set_queue queue_at
  queued_jobs-set_queue q zero js = ground arith
  queued_jobs-set_queue q (suc zero) js = ground arith
  queued_jobs-set_queue q (suc (suc zero)) js = ground arith
  queued_jobs-set_queue q (suc (suc (suc i))) js = ground arith

  take_from-queued :
      (is : List ℕ) (q : Queues Job) (i : ℕ) (job : Job) (rest : Queues Job)
      → take_from is q ≡ some (i, job, rest)
      → suc (queued_jobs rest) ≡ queued_jobs q
  unfolding take_from
  take_from-queued [] q i job rest h = cc
  take_from-queued (j ∷ is) q i job rest h =
      ground
        (arith, take_from-queued is q i job rest, queued_jobs-set_queue q j (drop 1 (queue_at j q)))

  Step-IsCounted : {p t : Pool Job} → IsCounted p → Step p t → IsCounted t
  unfolding post spawn start count queued_jobs take_job
  Step-IsCounted {p} c (posts none pri) = c
  Step-IsCounted {p} c (posts (some job) pri) = ground arith
  Step-IsCounted {p} c spawns = ground (
    arith,
    length-append p.workers (created ∷ []),
    count-append is_alive p.workers created [],
    count-append is_busy p.workers created [],
  )
  Step-IsCounted {p} c (begins before after e q) =
      ground (arith, replaced before created waiting after)
  Step-IsCounted {p} c (takes before after i job rest e w k q) = ground (
    arith,
    replaced before waiting (holding job) after,
    take_from-queued take_order p.queues i job rest,
  )
  Step-IsCounted {p} c (enters before after job e q) =
      ground (arith, replaced before (holding job) (busy job) after)
  Step-IsCounted {p} c (returns before after job e q) =
      ground (arith, replaced before (busy job) waiting after)
  Step-IsCounted {p} c (leaves before after e w k q) =
      ground (arith, replaced before waiting leaving after)
  Step-IsCounted {p} c (ends before after e q) =
      ground (arith, replaced before leaving exited after)
  Step-IsCounted {p} c (flags e q) = ground arith
  Step-IsCounted {p} c (clears e q) = ground arith
  Step-IsCounted {p} c (joins e h q) = ground arith
  Step-IsCounted {p} c (starts n h) = ground (arith, length-new_workers Job n)

  Reach-IsCounted : {p t : Pool Job} → IsCounted p → Reach p t → IsCounted t
  Reach-IsCounted c here = c
  Reach-IsCounted c (next r st) = Step-IsCounted (Reach-IsCounted c r) st

  new_pool-IsCounted : IsCounted (new_pool {Job = Job})
  unfolding count queued_jobs
  new_pool-IsCounted = ground arith

  -- However the threads interleave: there are at most as many workers as the limit of the pool,
  -- which `start` sets to four times what it starts, and the two counters are the numbers of the
  -- workers that are between their changes of them, so that no counter goes below 0.
  pub reach_counts_workers :
      {p : Pool Job}
      → Reach new_pool p
      → (length p.workers ≤ p.max_workers)
        × (p.active_workers ≡ count is_alive p.workers)
        × (p.busy_workers ≡ count is_busy p.workers)
  reach_counts_workers {p} r =
      let c = Reach-IsCounted new_pool-IsCounted r in (c.bounded, c.counts_active, c.counts_busy)

  Step-adds_nothing :
      {p t : Pool Job}
      → IsCounted p
      → p.stop_phase ≡ cleared
      → Step p t
      → (queued_jobs t.queues ≡ 0) × (length t.workers ≤ length p.workers)
  unfolding post spawn start queued_jobs take_job
  Step-adds_nothing {p} c z (posts none pri) = ground (arith, c.stays_clear z)
  Step-adds_nothing {p} c z (posts (some job) pri) =
      ground (arith, c.stays_clear z, c.stays_flagged)
  Step-adds_nothing {p} c z spawns = ground (arith, c.stays_clear z)
  Step-adds_nothing {p} c z (begins before after e q) =
      ground (arith, c.stays_clear z, replaced before created waiting after)
  Step-adds_nothing {p} c z (takes before after i job rest e w k q) = ground (
    arith,
    c.stays_clear z,
    replaced before waiting (holding job) after,
    take_from-queued take_order p.queues i job rest,
  )
  Step-adds_nothing {p} c z (enters before after job e q) =
      ground (arith, c.stays_clear z, replaced before (holding job) (busy job) after)
  Step-adds_nothing {p} c z (returns before after job e q) =
      ground (arith, c.stays_clear z, replaced before (busy job) waiting after)
  Step-adds_nothing {p} c z (leaves before after e w k q) =
      ground (arith, c.stays_clear z, replaced before waiting leaving after)
  Step-adds_nothing {p} c z (ends before after e q) =
      ground (arith, c.stays_clear z, replaced before leaving exited after)
  Step-adds_nothing {p} c z (flags e q) = ground arith
  Step-adds_nothing {p} c z (clears e q) = ground arith
  Step-adds_nothing {p} c z (joins e h q) = ground (arith, c.stays_clear z)
  Step-adds_nothing {p} c z (starts n h) = ground (arith, c.stays_clear z)

  -- Once a stop has cleared the queues, and until it returns: no step puts a job
  -- into a queue, and none adds a worker, also when a thread has read the flag before the stop.
  pub cleared_adds_nothing :
      {p t : Pool Job}
      → Reach new_pool p
      → p.stop_phase ≡ cleared
      → Step p t
      → (queued_jobs t.queues ≡ 0) × (length t.workers ≤ length p.workers)
  cleared_adds_nothing r e st = Step-adds_nothing (Reach-IsCounted new_pool-IsCounted r) e st
