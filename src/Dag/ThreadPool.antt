-- ===== src/Dag/ThreadPool.antt =====
-- server/src/dag/dag_thread_pool.h and dag_thread_pool.cpp: the pool that runs the DAGs' tasks. Each
-- definition is what one thread does under the lock. A job is a value of any type.
use task_hub.Runner.Task.{TaskPriority, critical, high, normal, low, other_priority}
use task_hub.Prelude.{
  ℕ, ◌++◌, ◌-◌, ◌*◌, List, [], ◌∷◌, not, is_empty, length, ◌+◌, ◌≡◌, leb, ltb, Option, Bool, map,
  All, ◌&&◌, ◌||◌, ◌⊎◌, false, if◌then◌else◌, none, some, suc, true, zero,
}
pub mod Steps
pub mod Counts
pub mod Fifo

-- Critical, High, Normal, Low.
pub record Queues (Job : Type 0) : Type 0 where
  pub queue0 : List Job
  pub queue1 : List Job
  pub queue2 : List Job
  pub queue3 : List Job

unfoldable pub priority_index : TaskPriority → ℕ
priority_index critical = 0
priority_index high = 1
priority_index normal = 2
priority_index low = 3
priority_index (other_priority i) = 2

unfoldable pub take_order : List ℕ
take_order =
    map priority_index
      (TaskPriority.critical ∷ TaskPriority.high ∷ TaskPriority.normal ∷ TaskPriority.low ∷ [])

-- Where a thread of the pool is in its loop: not begun, waiting for a job, with a job that it has
-- taken, in the job, out of the loop, or ended.
pub data Phase (Job : Type 0) : Type 0 where
  created : Phase Job
  waiting : Phase Job
  holding : Job → Phase Job
  busy : Job → Phase Job
  leaving : Phase Job
  exited : Phase Job

-- How far `stop` is: not called, past its first line, past the clearing of the
-- queues, or returned.
pub data StopPhase : Type 0 where
  serving flagged cleared stopped : StopPhase

pub record Pool (Job : Type 0) : Type 0 where
  pub queues : Queues Job
  pub workers : List (Phase Job)
  pub stopping : Bool
  pub active_workers : ℕ
  pub busy_workers : ℕ
  pub max_workers : ℕ
  pub stop_phase : StopPhase

module _ {Job : Type 0} where
  abbrev pub no_jobs : Queues Job
  no_jobs = record { queue0 = []; queue1 = []; queue2 = []; queue3 = [] }

  -- A pool that has never been started.
  abbrev pub new_pool : Pool Job
  new_pool = record {
    queues = no_jobs;
    workers = [];
    stopping = false;
    active_workers = 0;
    busy_workers = 0;
    max_workers = 0;
    stop_phase = serving;
  }

  unfoldable pub queue_at : ℕ → Queues Job → List Job
  queue_at zero q = q.queue0
  queue_at (suc zero) q = q.queue1
  queue_at (suc (suc zero)) q = q.queue2
  queue_at _ q = q.queue3

  unfoldable pub set_queue : ℕ → List Job → Queues Job → Queues Job
  set_queue zero js q = record q { queue0 = js }
  set_queue (suc zero) js q = record q { queue1 = js }
  set_queue (suc (suc zero)) js q = record q { queue2 = js }
  set_queue _ js q = record q { queue3 = js }

  unfoldable pub has_jobs : Queues Job → Bool
  has_jobs q =
      not (is_empty q.queue0)
      || not (is_empty q.queue1)
      || not (is_empty q.queue2)
      || not (is_empty q.queue3)

  unfoldable pub queued_jobs : Queues Job → ℕ
  queued_jobs q = length q.queue0 + length q.queue1 + length q.queue2 + length q.queue3

  abbrev pub new_workers : ℕ → List (Phase Job)
  new_workers zero = []
  new_workers (suc n) = created ∷ new_workers n

  unfoldable pub start : ℕ → Pool Job → Pool Job
  start n p = if not (is_empty p.workers) then p else record p {
    queues = no_jobs;
    workers = new_workers n;
    stopping = false;
    max_workers = n * 4;
    stop_phase = serving;
  }

  -- The part of `post` under the lock. The empty function is no job.
  unfoldable pub post : Option Job → TaskPriority → Pool Job → Pool Job
  post none pri p = p
  post (some job) pri p =
      let i = priority_index pri in
      if p.stopping
      then p
      else record p { queues = set_queue i (queue_at i p.queues ++ job ∷ []) p.queues }

  -- The part of `maybeSpawnWorker` under the lock, which the flag of a moment before let through.
  unfoldable pub spawn : Pool Job → Pool Job
  spawn p =
      let total = length p.workers in
      let spare = (if ltb p.busy_workers total then total - p.busy_workers else 0) in
      let queued = queued_jobs p.queues in
      if leb p.max_workers total
      then p
      else if ltb 0 queued && ltb spare queued
      then record p { workers = p.workers ++ created ∷ [] }
      else p

  -- `take_job` once its wait is over: the first job of the first queue that has one.
  unfoldable pub take_from : List ℕ → Queues Job → Option (ℕ × Job × Queues Job)
  take_from [] q = none
  take_from (i ∷ is) q =
      let later = take_from is q in
      elim (queue_at i q) [ [] ↦ later | job ∷ jobs ↦ some (i, job, set_queue i jobs q) ]

  unfoldable pub is_awake : Pool Job → Bool
  is_awake p = p.stopping || has_jobs p.queues

  unfoldable pub take_job : Pool Job → Option (ℕ × Job × Queues Job)
  take_job p = if p.stopping && not (has_jobs p.queues) then none else take_from take_order p.queues
