-- ===== src/Dag/ThreadPool/Fifo.antt =====
-- server/src/dag/dag_thread_pool.cpp: which job is taken, and that each queue is a first-in,
-- first-out channel.
use task_hub.Runner.Task.{TaskPriority}
use task_hub.Dag.ThreadPool.Steps.{
  Step, Reach, here, next, posts, takes, clears, starts, spawns, begins, enters, leaves, returns,
  ends, flags, joins,
}
use task_hub.Dag.ThreadPool.{
  Queues, Pool, take_job, queue_at, set_queue, take_from, take_order, priority_index, post, spawn,
  start,
}
use mathlib.Core.List.{append-nil, append_assoc}
use task_hub.Prelude.{
  ℕ, ◌≡◌, ◌<◌, ◌++◌, ◌≢◌, [], ◌∷◌, ◌==◌, if◌then◌else◌, some, List, arith, none, Bool, true, false,
  ◌&&◌, not, Text-Eq,
}

priority_index_lt : (pri : TaskPriority) → priority_index pri < 4
unfolding priority_index
priority_index_lt pri = ground arith

module _ {Job : Type 0} where
  queue_at-set_queue :
      (q : Queues Job) (i j : ℕ) (js : List Job)
      → i < 4
      → j < 4
      → queue_at j (set_queue i js q) ≡ (if i == j then js else queue_at j q)
  unfolding queue_at set_queue
  queue_at-set_queue q i j js h k = ground arith

  -- The job that is taken is the first of its queue, and every queue before that one is empty; the
  -- other queues stay as they are.
  pub take_job-first :
      (p : Pool Job) (i : ℕ) (job : Job) (rest : Queues Job)
      → take_job p ≡ some (i, job, rest)
      → (i < 4)
        × (queue_at i p.queues ≡ job ∷ queue_at i rest)
        × ((j : ℕ) → j < i → queue_at j p.queues ≡ [])
        × ((j : ℕ) → j < 4 → j ≢ i → queue_at j rest ≡ queue_at j p.queues)
  unfolding take_job take_from take_order queue_at set_queue priority_index
  take_job-first p i job rest h =
      (ground arith, ground arith, λ j l. ground arith, λ j l n. ground arith)

  take_job-queue_at :
      (p : Pool Job) (k i : ℕ) (job : Job) (rest : Queues Job)
      → take_job p ≡ some (k, job, rest)
      → i < 4
      → queue_at i p.queues ≡ (if k == i then job ∷ [] else []) ++ queue_at i rest
  unfolding take_job take_from take_order queue_at set_queue priority_index
  take_job-queue_at p k i job rest h l = ground arith

  -- The jobs that a step puts into the queue `i`, and those that it takes out of it.
  abbrev pub posted_by : ℕ → {p t : Pool Job} → Step p t → List Job
  posted_by i (posts none pri) = []
  posted_by i {p} (posts (some job) pri) =
      if p.stopping then [] else if priority_index pri == i then job ∷ [] else []
  posted_by i _ = []

  abbrev pub taken_by : ℕ → {p t : Pool Job} → Step p t → List Job
  taken_by i (takes before after k job rest e w f q) = if k == i then job ∷ [] else []
  taken_by i _ = []

  -- The steps that empty the queues.
  abbrev pub empties : {p t : Pool Job} → Step p t → Bool
  empties (clears e q) = true
  empties (starts n h) = true
  empties _ = false

  unfoldable pub posted : ℕ → {p t : Pool Job} → Reach p t → List Job
  posted i here = []
  posted i (next r st) = posted i r ++ posted_by i st

  unfoldable pub taken : ℕ → {p t : Pool Job} → Reach p t → List Job
  taken i here = []
  taken i (next r st) = taken i r ++ taken_by i st

  unfoldable pub is_kept : {p t : Pool Job} → Reach p t → Bool
  is_kept here = true
  is_kept (next r st) = is_kept r && not (empties st)

  Step-channel :
      (i : ℕ) {p t : Pool Job} (st : Step p t)
      → i < 4
      → empties st ≡ false
      → queue_at i p.queues ++ posted_by i st ≡ taken_by i st ++ queue_at i t.queues
  unfolding post spawn start
  Step-channel i {p} (posts none pri) h e = append-nil (queue_at i p.queues)
  Step-channel i {p} (posts (some job) pri) h e = ground (
    arith,
    append-nil (queue_at i p.queues),
    priority_index_lt pri,
    queue_at-set_queue p.queues (priority_index pri) i
        (queue_at (priority_index pri) p.queues ++ job ∷ []),
  )
  Step-channel i {p} spawns h e = ground (arith, append-nil (queue_at i p.queues))
  Step-channel i {p} (takes before after k job rest f w g q) h e =
      ground (arith, append-nil (queue_at i p.queues), take_job-queue_at p k i job rest g h)
  Step-channel i {p} (begins before after f q) h e =
      ground (arith, append-nil (queue_at i p.queues))
  Step-channel i {p} (enters before after job f q) h e =
      ground (arith, append-nil (queue_at i p.queues))
  Step-channel i {p} (returns before after job f q) h e =
      ground (arith, append-nil (queue_at i p.queues))
  Step-channel i {p} (leaves before after f w g q) h e =
      ground (arith, append-nil (queue_at i p.queues))
  Step-channel i {p} (ends before after f q) h e = ground (arith, append-nil (queue_at i p.queues))
  Step-channel i {p} (flags f q) h e = ground (arith, append-nil (queue_at i p.queues))
  Step-channel i {p} (clears f q) h e = cc
  Step-channel i {p} (joins f g q) h e = ground (arith, append-nil (queue_at i p.queues))
  Step-channel i {p} (starts n f) h e = cc

  -- While no step empties the queues, every queue is a channel: what was in it and what has been
  -- posted to it since is what has been taken from it since and what is in it, in the same order.
  pub queue_is_channel :
      (i : ℕ) {p t : Pool Job} (r : Reach p t)
      → i < 4
      → is_kept r ≡ true
      → queue_at i p.queues ++ posted i r ≡ taken i r ++ queue_at i t.queues
  unfolding posted taken is_kept
  queue_is_channel i here h k = append-nil _
  queue_is_channel i {p} (next {t} {u} r st) h k = ground (
    arith,
    queue_is_channel i r h,
    Step-channel i st h,
    append_assoc (queue_at i p.queues) (posted i r) (posted_by i st),
    append_assoc (taken i r) (queue_at i t.queues) (posted_by i st),
    append_assoc (taken i r) (taken_by i st) (queue_at i u.queues),
  )
