-- ===== src/Tests/PoolTests.antt =====
-- The pool of the DAGs with one worker and one job.
use task_hub.Runner.Task.{high}
use task_hub.Dag.ThreadPool.Fifo.{posted, taken, is_kept, queue_is_channel, take_job-first}
use task_hub.Prelude.{ℕ, ◌≤◌, ◌≡◌, [], ◌∷◌, ◌++◌, ◌≢◌, ◌<◌, some, true, inl, refl, arith, length}
use task_hub.Dag.ThreadPool.{
  start, Pool, Queues, new_pool, no_jobs, cleared, post, queue_at, take_job, take_from, take_order,
  priority_index, set_queue,
}
use task_hub.Dag.ThreadPool.Steps.{Reach, here, next, posts, flags, clears, starts}
use task_hub.Dag.ThreadPool.Counts.{count, is_alive, is_busy, reach_counts_workers}

abbrev fresh_pool : Pool ℕ
fresh_pool = new_pool

abbrev started : Reach fresh_pool (start 1 fresh_pool)
started = next here (starts 1 (inl refl))

reach_counts_workers_example :
    (length (start 1 fresh_pool).workers ≤ (start 1 fresh_pool).max_workers)
    × ((start 1 fresh_pool).active_workers ≡ count is_alive (start 1 fresh_pool).workers)
    × ((start 1 fresh_pool).busy_workers ≡ count is_busy (start 1 fresh_pool).workers)
reach_counts_workers_example = reach_counts_workers started

abbrev cleared_pool : Pool ℕ
cleared_pool = record (start 1 fresh_pool) {
  queues = no_jobs;
  stopping = true;
  stop_phase = cleared;
}

reach_cleared : Reach fresh_pool cleared_pool
unfolding start
reach_cleared = next (next started (flags refl refl)) (clears refl refl)

abbrev posting : Reach fresh_pool (post (some 7) high fresh_pool)
posting = next here (posts (some 7) high)

posting-is_kept : is_kept posting ≡ true
unfolding is_kept
posting-is_kept = refl

queue_is_channel_example :
    queue_at 1 fresh_pool.queues ++ posted 1 posting
    ≡ taken 1 posting ++ queue_at 1 (post (some 7) high fresh_pool).queues
queue_is_channel_example = queue_is_channel 1 posting (omega arith) posting-is_kept

abbrev two_jobs : Pool ℕ
two_jobs = record fresh_pool { queues = record no_jobs { queue1 = 5 ∷ []; queue2 = 6 ∷ [] } }

abbrev one_left : Queues ℕ
one_left = record no_jobs { queue2 = 6 ∷ [] }

two_jobs_taken : take_job two_jobs ≡ some (1, 5, one_left)
unfolding take_job take_from take_order priority_index queue_at set_queue
two_jobs_taken = refl

take_job-first_example :
    (1 < 4)
    × (queue_at 1 two_jobs.queues ≡ 5 ∷ queue_at 1 one_left)
    × ((j : ℕ) → j < 1 → queue_at j two_jobs.queues ≡ [])
    × ((j : ℕ) → j < 4 → j ≢ 1 → queue_at j one_left ≡ queue_at j two_jobs.queues)
take_job-first_example = take_job-first two_jobs 1 5 one_left two_jobs_taken
