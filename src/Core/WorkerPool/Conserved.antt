-- ===== src/Core/WorkerPool/Conserved.antt =====
-- server/src/core/worker_pool.cpp: where the tasks that were submitted are, and a pool that was
-- stopped.
use task_hub.Core.WorkerPool.{
  Phase, holding, executing, finishing, popping, exited, WorkerPool, Step, Reach, submits, pushes,
  ends, pops, skips, begins, finishes, leaves, flags, shuts, joins, starts, here, next, wrap,
  new_pool, submit, push, pop, start, shutdown, new_workers,
}
use task_hub.Prelude.{
  ℕ, ◌≤◌, ◌≡◌, [], ◌∷◌, ◌++◌, Bool, false, true, some, none, List, bit, ◌+◌, arith, All, length,
  length-append, refl, suc, zero,
}

module _ {T : Type 0} where
  abbrev pub has_task : Phase T → Bool
  has_task (holding t) = true
  has_task (executing t) = true
  has_task _ = false

  abbrev pub is_executing : Phase T → Bool
  is_executing (executing t) = true
  is_executing (finishing t) = true
  is_executing _ = false

  unfoldable pub count : (Phase T → Bool) → List (Phase T) → ℕ
  count f [] = 0
  count f (w ∷ ws) = bit (f w) + count f ws

  count-append :
      (f : Phase T → Bool) (xs : List (Phase T)) (w : Phase T) (ys : List (Phase T))
      → count f (xs ++ w ∷ ys) ≡ count f xs + bit (f w) + count f ys
  unfolding count
  count-append f [] w ys = omega arith
  count-append f (x ∷ xs) w ys = omega (arith, count-append f xs w ys)

  count-exited :
      (f : Phase T → Bool) (ws : List (Phase T))
      → f exited ≡ false
      → All (λ w. w ≡ exited) ws
      → count f ws ≡ 0
  unfolding count
  count-exited f [] e h = refl
  count-exited f (w ∷ ws) e h = ground (arith, h.0, count-exited f ws e h.1)

  count-new_workers : (f : Phase T → Bool) (n : ℕ) → f popping ≡ false → count f (new_workers n) ≡ 0
  unfolding count
  count-new_workers f zero e = refl
  count-new_workers f (suc n) e = ground (arith, e, count-new_workers f n e)

  -- The tasks that were dropped as canceled before they began, and those that came to a queue that
  -- was shut.
  abbrev pub skipped_by : {p t : WorkerPool T} → Step p t → ℕ
  skipped_by (skips before after t e q) = 1
  skipped_by _ = 0

  abbrev pub refused_by : {p t : WorkerPool T} → Step p t → ℕ
  refused_by {p} (pushes before after t e q) = bit p.queue.is_stopped
  refused_by _ = 0

  unfoldable pub skipped : {p t : WorkerPool T} → Reach p t → ℕ
  skipped here = 0
  skipped (next r st) = skipped r + skipped_by st

  unfoldable pub refused : {p t : WorkerPool T} → Reach p t → ℕ
  refused here = 0
  refused (next r st) = refused r + refused_by st

  abbrev pub IsConserved : WorkerPool T → ℕ → Type 0
  IsConserved p lost =
      (p.total_submitted
        ≡ wrap (
            length p.submitting
            + length p.queue.items
            + count has_task p.workers
            + p.total_finished
            + lost))
      × (p.current_running ≡ wrap (count is_executing p.workers))

  abbrev Moved : (v w : Phase T) (ws vs : List (Phase T)) → Type 0
  Moved v w ws vs =
      (count has_task vs + bit (has_task v) ≡ count has_task ws + bit (has_task w))
      × (count is_executing vs + bit (is_executing v)
          ≡ count is_executing ws + bit (is_executing w))

  moved :
      (before : List (Phase T)) (v w : Phase T) (after : List (Phase T))
      → Moved v w (before ++ v ∷ after) (before ++ w ∷ after)
  moved before v w after = ground (
    arith,
    count-append has_task before v after,
    count-append has_task before w after,
    count-append is_executing before v after,
    count-append is_executing before w after,
  )

  Step-IsConserved :
      (lost : ℕ) {p t : WorkerPool T} (st : Step p t)
      → IsConserved p lost
      → IsConserved t (lost + skipped_by st + refused_by st)
  unfolding submit push pop start shutdown count
  Step-IsConserved lost {p} (submits none) c = ground arith
  Step-IsConserved lost {p} (submits (some t)) c = ground arith
  Step-IsConserved lost {p} (pushes before after t e q) c = ground (
    arith,
    length-append p.queue.items (t ∷ []),
    length-append before (t ∷ after),
    length-append before after,
  )
  Step-IsConserved lost {p} (pops before after t rest e f q) c =
      ground (arith, moved before popping (holding t) after)
  Step-IsConserved lost {p} (skips before after t e q) c =
      ground (arith, moved before (holding t) popping after)
  Step-IsConserved lost {p} (begins before after t e q) c =
      ground (arith, moved before (holding t) (executing t) after)
  Step-IsConserved lost {p} (finishes before after t e q) c =
      ground (arith, moved before (executing t) (finishing t) after)
  Step-IsConserved lost {p} (ends before after t e q) c =
      ground (arith, moved before (finishing t) popping after)
  Step-IsConserved lost {p} (leaves before after e f q) c =
      ground (arith, moved before popping exited after)
  Step-IsConserved lost {p} (flags q) c = ground arith
  Step-IsConserved lost {p} (shuts e q) c = ground arith
  Step-IsConserved lost {p} (joins e h q) c =
      ground
        (arith, count-exited has_task p.workers refl h, count-exited is_executing p.workers refl h)
  Step-IsConserved lost {p} (starts n) c =
      ground (arith, count-new_workers has_task n refl, count-new_workers is_executing n refl)

  -- However the steps of the threads interleave: the number of tasks submitted is the number of those
  -- that are still to be pushed, in the queue, with a worker that has not finished them, finished,
  -- dropped as canceled before they began, and refused by a queue that was shut; and the number running
  -- is that of the workers between the two changes of its counter. The counters count modulo 2^32.
  pub reach_conserves_tasks :
      {p : WorkerPool T} (r : Reach new_pool p) → IsConserved p (skipped r + refused r)
  unfolding skipped refused count
  reach_conserves_tasks here = ground arith
  reach_conserves_tasks (next r st) =
      ground (arith, Step-IsConserved (skipped r + refused r) st (reach_conserves_tasks r))

  Step-shut :
      {p t : WorkerPool T}
      → p.queue.is_stopped ≡ true
      → Step p t
      → (t.queue.is_stopped ≡ true) × (length t.queue.items ≤ length p.queue.items)
  unfolding submit push pop start shutdown
  Step-shut {p} h (submits none) = ground arith
  Step-shut {p} h (submits (some t)) = ground arith
  Step-shut {p} h (pushes before after t e q) = ground arith
  Step-shut {p} h (ends before after t e q) = ground arith
  Step-shut {p} h (pops before after t rest e f q) = ground arith
  Step-shut {p} h (starts n) = ground arith
  Step-shut {p} h (shuts e q) = ground arith
  Step-shut {p} h (skips before after t e q) = ground arith
  Step-shut {p} h (begins before after t e q) = ground arith
  Step-shut {p} h (finishes before after t e q) = ground arith
  Step-shut {p} h (leaves before after e f q) = ground arith
  Step-shut {p} h (flags q) = ground arith
  Step-shut {p} h (joins e k q) = ground arith

  -- Once the queue of a pool is shut, it stays shut, also when the pool is started again, and no
  -- task comes into it: what waits in it can only become less.
  pub shut_takes_nothing :
      {p t : WorkerPool T}
      → p.queue.is_stopped ≡ true
      → Reach p t
      → (t.queue.is_stopped ≡ true) × (length t.queue.items ≤ length p.queue.items)
  shut_takes_nothing h here = ground arith
  shut_takes_nothing h (next r st) =
      let c = shut_takes_nothing h r in ground (arith, c, Step-shut c.0 st)
