-- ===== src/Dag/ThreadPool/Steps.antt =====
-- server/src/dag/dag_thread_pool.cpp: the interleavings of the pool's threads. A step is what one
-- thread does under the lock or on an atomic variable.
use task_hub.Runner.Task.{TaskPriority}
use task_hub.Dag.ThreadPool.{
  Phase, created, waiting, holding, busy, leaving, exited, serving, flagged, cleared, stopped,
  take_job, Queues, Pool, post, spawn, is_awake, no_jobs, start,
}
use task_hub.Prelude.{◌-◌, ◌++◌, List, ◌∷◌, ◌≡◌, true, All, ◌⊎◌, none, some, suc, [], Option, ℕ}

module _ {Job : Type 0} where
  -- One step of one thread. A client posts or asks for more workers; a worker begins, takes a job,
  -- enters it, comes back from it, finds no job and leaves, or ends; the thread in `stop` sets the
  -- flag, clears the queues, and ends when every worker has ended. No start is during a stop.
  pub data Step (p : Pool Job) : Pool Job → Type 0 where
    posts : (job : Option Job) (pri : TaskPriority) → Step p (post job pri p)
    spawns : Step p (spawn p)
    begins :
        (before after : List (Phase Job))
        → p.workers ≡ before ++ created ∷ after
        → {t : Pool Job}
        → t
          ≡ record p { workers = before ++ waiting ∷ after; active_workers = suc p.active_workers }
        → Step p t
    takes :
        (before after : List (Phase Job)) (i : ℕ) (job : Job) (rest : Queues Job)
        → p.workers ≡ before ++ waiting ∷ after
        → is_awake p ≡ true
        → take_job p ≡ some (i, job, rest)
        → {t : Pool Job} → t ≡ record p { workers = before ++ holding job ∷ after; queues = rest }
        → Step p t
    enters :
        (before after : List (Phase Job)) (job : Job)
        → p.workers ≡ before ++ holding job ∷ after
        → {t : Pool Job}
        → t ≡ record p { workers = before ++ busy job ∷ after; busy_workers = suc p.busy_workers }
        → Step p t
    returns :
        (before after : List (Phase Job)) (job : Job)
        → p.workers ≡ before ++ busy job ∷ after
        → {t : Pool Job}
        → t ≡ record p { workers = before ++ waiting ∷ after; busy_workers = p.busy_workers - 1 }
        → Step p t
    leaves :
        (before after : List (Phase Job))
        → p.workers ≡ before ++ waiting ∷ after
        → is_awake p ≡ true
        → take_job p ≡ none
        → {t : Pool Job} → t ≡ record p { workers = before ++ leaving ∷ after }
        → Step p t
    ends :
        (before after : List (Phase Job))
        → p.workers ≡ before ++ leaving ∷ after
        → {t : Pool Job}
        → t ≡ record p { workers = before ++ exited ∷ after; active_workers = p.active_workers - 1 }
        → Step p t
    flags :
        p.stop_phase ≡ serving
        → {t : Pool Job} → t ≡ record p { stopping = true; stop_phase = flagged }
        → Step p t
    clears :
        p.stop_phase ≡ flagged
        → {t : Pool Job} → t ≡ record p { queues = no_jobs; stop_phase = cleared }
        → Step p t
    joins :
        p.stop_phase ≡ cleared
        → All (λ w. w ≡ exited) p.workers
        → {t : Pool Job}
        → t ≡ record p {
          workers = [];
          active_workers = 0;
          busy_workers = 0;
          max_workers = 0;
          stop_phase = stopped;
        }
        → Step p t
    starts : (n : ℕ) → (p.stop_phase ≡ serving) ⊎ (p.stop_phase ≡ stopped) → Step p (start n p)

  pub data Reach (p : Pool Job) : Pool Job → Type 0 where
    here : Reach p p
    next : {t u : Pool Job} → Reach p t → Step t u → Reach p u
