-- ===== src/Core/WorkerPool.antt =====
-- server/src/core/blocking_queue.h, worker_pool.h and worker_pool.cpp: the queue and the pool that
-- runs what is in it. A step is what one thread does under the lock of the queue or on one atomic
-- variable. A task is a value of any type.
use task_hub.Prelude.{
  ℕ, ◌++◌, ◌%◌, [], ◌∷◌, Bool, false, true, not, some, none, Option, List, suc, if◌then◌else◌, zero,
  ◌||◌, ◌⊎◌, ◌≡◌, ◌+◌, is_empty, All,
}
pub mod Conserved

pub record BlockingQueue (T : Type 0) : Type 0 where
  pub items : List T
  pub is_stopped : Bool

-- Where a worker is: before a pop, with a task, in a task that it has begun, in one that it has
-- counted as finished but still as running, or ended.
pub data Phase (T : Type 0) : Type 0 where
  popping : Phase T
  holding : T → Phase T
  executing : T → Phase T
  finishing : T → Phase T
  exited : Phase T

-- The counters are the bit patterns of `int`s. The tasks in `submitting` have been counted by a thread
-- that has not pushed them yet.
pub record WorkerPool (T : Type 0) : Type 0 where
  pub queue : BlockingQueue T
  pub submitting : List T
  pub workers : List (Phase T)
  pub stopping : Bool
  pub total_submitted : ℕ
  pub total_finished : ℕ
  pub current_running : ℕ

abbrev pub wrap : ℕ → ℕ
wrap n = n % 4294967296

module _ {T : Type 0} where
  -- A queue that is shut takes nothing.
  unfoldable pub push : T → BlockingQueue T → BlockingQueue T
  push t q = if q.is_stopped then q else record q { items = q.items ++ t ∷ [] }

  -- The end of the wait of `pop`, and what it gives then.
  unfoldable pub is_ready : BlockingQueue T → Bool
  is_ready q = q.is_stopped || not (is_empty q.items)

  unfoldable pub pop : BlockingQueue T → Option (T × BlockingQueue T)
  pop q = elim q.items [ [] ↦ none | t ∷ ts ↦ some (t, record q { items = ts }) ]

  unfoldable pub shutdown : BlockingQueue T → BlockingQueue T
  shutdown q = record q { is_stopped = true }

  abbrev pub new_pool : WorkerPool T
  new_pool = record {
    queue = record { items = []; is_stopped = false };
    submitting = [];
    workers = [];
    stopping = false;
    total_submitted = 0;
    total_finished = 0;
    current_running = 0;
  }

  abbrev pub new_workers : ℕ → List (Phase T)
  new_workers zero = []
  new_workers (suc n) = popping ∷ new_workers n

  unfoldable pub start : ℕ → WorkerPool T → WorkerPool T
  start n p =
      if not (is_empty p.workers) then p else record p { stopping = false; workers = new_workers n }

  -- `submit` up to its push. `none` is the null pointer.
  unfoldable pub submit : Option T → WorkerPool T → WorkerPool T
  submit none p = p
  submit (some t) p = record p {
    total_submitted = wrap (suc p.total_submitted);
    submitting = t ∷ p.submitting;
  }

  -- A task is counted, and later pushed; a worker pops a task, drops it as canceled, or begins it,
  -- counts it as finished and then no longer as running, or ends its loop; `stop` sets the flag, shuts
  -- the queue, and joins the workers; the pool is started.
  pub data Step (p : WorkerPool T) : WorkerPool T → Type 0 where
    submits : (t : Option T) → Step p (submit t p)
    pushes :
        (before after : List T) (t : T)
        → p.submitting ≡ before ++ t ∷ after
        → {u : WorkerPool T} → u ≡ record p { submitting = before ++ after; queue = push t p.queue }
        → Step p u
    pops :
        (before after : List (Phase T)) (t : T) (rest : BlockingQueue T)
        → p.workers ≡ before ++ popping ∷ after
        → pop p.queue ≡ some (t, rest)
        → {u : WorkerPool T} → u ≡ record p { workers = before ++ holding t ∷ after; queue = rest }
        → Step p u
    skips :
        (before after : List (Phase T)) (t : T)
        → p.workers ≡ before ++ holding t ∷ after
        → {u : WorkerPool T} → u ≡ record p { workers = before ++ popping ∷ after }
        → Step p u
    begins :
        (before after : List (Phase T)) (t : T)
        → p.workers ≡ before ++ holding t ∷ after
        → {u : WorkerPool T}
        → u ≡ record p {
          workers = before ++ executing t ∷ after;
          current_running = wrap (suc p.current_running);
        }
        → Step p u
    finishes :
        (before after : List (Phase T)) (t : T)
        → p.workers ≡ before ++ executing t ∷ after
        → {u : WorkerPool T}
        → u ≡ record p {
          workers = before ++ finishing t ∷ after;
          total_finished = wrap (suc p.total_finished);
        }
        → Step p u
    ends :
        (before after : List (Phase T)) (t : T)
        → p.workers ≡ before ++ finishing t ∷ after
        → {u : WorkerPool T}
        → u ≡ record p {
          workers = before ++ popping ∷ after;
          current_running = wrap (p.current_running + 4294967295);
        }
        → Step p u
    leaves :
        (before after : List (Phase T))
        → p.workers ≡ before ++ popping ∷ after
        → (p.stopping ≡ true) ⊎ ((is_ready p.queue ≡ true) × (pop p.queue ≡ none))
        → {u : WorkerPool T} → u ≡ record p { workers = before ++ exited ∷ after }
        → Step p u
    flags : {u : WorkerPool T} → u ≡ record p { stopping = true } → Step p u
    shuts :
        p.stopping ≡ true
        → {u : WorkerPool T} → u ≡ record p { queue = shutdown p.queue }
        → Step p u
    joins :
        p.queue.is_stopped ≡ true
        → All (λ w. w ≡ exited) p.workers
        → {u : WorkerPool T} → u ≡ record p { workers = [] }
        → Step p u
    starts : (n : ℕ) → Step p (start n p)

  pub data Reach (p : WorkerPool T) : WorkerPool T → Type 0 where
    here : Reach p p
    next : {t u : WorkerPool T} → Reach p t → Step t u → Reach p u
