-- ===== src/Core/Execute/Outcome.antt =====
-- server/src/core/worker_pool.cpp: how a task ends.
use task_hub.Prelude.{
  ℕ, ◌≡◌, ◌≤◌, ◌<◌, false, true, pos, pos_part, eqb_ℤ, suc, zero, ℤ, ◌≤ℤ◌, ◌<ℤ◌, some, inl, inr,
  ◌+◌, if◌then◌else◌, Bool-cases, arith, ◌⊎◌, ◌++◌, ◌∷◌, [], ltb_ℤ, ◌==◌, refl, List, Text-Eq, ◌≢◌,
}
use task_hub.Core.Task.{Task, TaskStatus}
use task_hub.Core.Execute.{
  Surroundings, Ended, attempts, after_attempt, no_attempt, execute_one_task, final_status,
  running_task, ended_task, told_tasks, failed_attempt, wait_after, ExecResult,
}

-- The attempt of a number is made, and fails otherwise than by its time: it exits with a number
-- that is not 0.
abbrev pub IsFailure : Surroundings → (ℕ → ExecResult) → ℕ → Type 0
IsFailure s results k =
    (s.canceled_before k ≡ false)
    × ((results k).timed_out ≡ false)
    × ((results k).exit_code ≢ pos 0)

-- What ends the loop after `n` attempts that have failed, and the status and the number of retries
-- that it leaves: the flag is set, or the next attempt runs out of time, succeeds, or fails as the
-- last one.
abbrev pub Outcome : Surroundings → (ℕ → ExecResult) → ℤ → ℕ → ℤ → TaskStatus → ℤ → Type 0
Outcome s results max_retries n retries status retry_count =
    ((s.canceled_before n ≡ true) × (status ≡ TaskStatus.canceled) × (retry_count ≡ retries))
    ⊎ ((s.canceled_before n ≡ false)
        × ((results n).timed_out ≡ true)
        × (status ≡ TaskStatus.timeout)
        × (retry_count ≡ retries))
    ⊎ ((s.canceled_before n ≡ false)
        × ((results n).timed_out ≡ false)
        × ((results n).exit_code ≡ pos 0)
        × (status ≡ TaskStatus.success)
        × (retry_count ≡ retries))
    ⊎ (IsFailure s results n
        × (max_retries <ℤ pos (suc n))
        × (status ≡ TaskStatus.failed)
        × (retry_count ≡ pos (suc n)))

-- The number of retries before the attempt `n`.
abbrev pub retries_at : ℕ → ℤ → ℤ
retries_at zero initial = initial
retries_at (suc n) initial = pos (suc n)

-- The status when the flag is not set at the end.
abbrev pub loop_status : Ended → TaskStatus
loop_status e =
    if e.final_canceled
    then TaskStatus.canceled
    else if e.final_timeout
    then TaskStatus.timeout
    else if eqb_ℤ e.final_exit_code (pos 0)
    then TaskStatus.success
    else TaskStatus.failed

module _ (s : Surroundings) (results : ℕ → ExecResult)
    (returns : (k : ℕ) → s.attempt_result k ≡ some (results k)) (max_retries initial : ℤ) where
  -- What the loop gives from the attempt of a number on.
  abbrev Ends : ℕ → ℕ → Ended → Type 0
  Ends fuel attempt e =
      (f : Ended) × (n : ℕ) × (attempts s max_retries fuel attempt e ≡ some f)
      × (attempt ≤ n)
      × (n ≤ pos_part max_retries)
      × Outcome s results max_retries n (retries_at n initial) (loop_status f) f.retry_count
      × ((k : ℕ) → attempt ≤ k → k < n → IsFailure s results k × (pos (suc k) ≤ℤ max_retries))

  -- The loop is left at this attempt.
  Ends-at :
      (fuel attempt : ℕ) (e f : Ended)
      → attempt ≤ pos_part max_retries
      → attempts s max_retries fuel attempt e ≡ some f
      → Outcome s results max_retries attempt
          (retries_at attempt initial)
          (loop_status f)
          f.retry_count
      → Ends fuel attempt e
  Ends-at fuel attempt e f l a o = (f, attempt, a, omega arith, l, o, λ k b d. ground arith)

  attempts-Ends :
      (fuel attempt : ℕ) (e : Ended)
      → suc (pos_part max_retries) ≡ attempt + fuel
      → attempt ≤ pos_part max_retries
      → e.retry_count ≡ retries_at attempt initial
      → e.final_canceled ≡ false
      → Ends fuel attempt e
  unfolding attempts
  attempts-Ends zero attempt e h l r c =
      let absurd : suc attempt ≤ attempt = omega arith in ground arith
  attempts-Ends (suc fuel) attempt e h l r c =
      let tried = after_attempt (results attempt) e in
      let failed = failed_attempt attempt (results attempt) e in
      elim (Bool-cases (s.canceled_before attempt)) [
        | inl p ↦
            Ends-at (suc fuel) attempt e (record e { final_canceled = true }) l
              (ground (arith, returns attempt)) (ground (arith, returns attempt))
        | inr p ↦ elim (Bool-cases (results attempt).timed_out) [
          | inl q ↦
              Ends-at (suc fuel) attempt e tried l (ground (arith, returns attempt))
                (ground (arith, returns attempt))
          | inr q ↦ elim (Bool-cases (eqb_ℤ (results attempt).exit_code (pos 0))) [
            | inl z ↦
                Ends-at (suc fuel) attempt e tried l (ground (arith, returns attempt))
                  (ground (arith, returns attempt))
            | inr z ↦ elim (Bool-cases (ltb_ℤ max_retries (pos (suc attempt)))) [
              | inl m ↦
                  Ends-at (suc fuel) attempt e failed l (ground (arith, returns attempt))
                    (ground (arith, returns attempt))
              | inr m ↦
                  let (f, n, same, low, high, outcome, before) =
                    attempts-Ends fuel (suc attempt) (wait_after attempt failed) (omega arith)
                      (ground arith) refl c in
                  (
                    f,
                    n,
                    ground (arith, returns attempt),
                    omega arith,
                    omega arith,
                    outcome,
                    λ k a b. elim (Bool-cases (k == attempt)) [
                      | inl x ↦ ground arith
                      | inr x ↦ before k (ground arith) b
                    ],
                  )
            ]
          ]
        ]
      ]

-- A task that is not canceled before it begins, and whose attempts all return, ends, within as many
-- retries as it allows, if any: some number `n` of attempts have failed, each with a retry left. Then,
-- unless the flag is set at the end, which makes the task canceled, it is canceled because the flag was
-- set before the next attempt, or the next attempt ran out of time, or it succeeded, or it failed with
-- no retry left, and the status says which. The retries that are counted are `n`, and one more when the
-- last attempt failed.
pub execute_one_task-Outcome :
    (s : Surroundings) (results : ℕ → ExecResult) (t : Task)
    → ((k : ℕ) → s.attempt_result k ≡ some (results k))
    → s.canceled_first ≡ false
    → (u : Task) × (told : List Task) × (n : ℕ) × (execute_one_task s
          (suc (pos_part t.max_retries))
          t
        ≡ some (u, told))
      × (n ≤ pos_part t.max_retries)
      × ((k : ℕ) → k < n → IsFailure s results k × (pos (suc k) ≤ℤ t.max_retries))
      × (s.canceled_last ≡ true → u.status ≡ TaskStatus.canceled)
      × (s.canceled_last ≡ false
          → Outcome s results t.max_retries n (retries_at n t.retry_count) u.status u.retry_count)
unfolding execute_one_task final_status no_attempt
execute_one_task-Outcome s results t returns h =
    let (f, n, same, low, high, outcome, before) =
      attempts-Ends s results returns t.max_retries t.retry_count (suc (pos_part t.max_retries)) 0
        (no_attempt t.retry_count) (omega arith) (omega arith) refl refl in
    (
      ended_task s t f,
      running_task s t ∷ (told_tasks (running_task s t) f.told ++ ended_task s t f ∷ []),
      n,
      ground arith,
      high,
      λ k a. before k (omega arith) a,
      λ q. ground arith,
      λ q. ground arith,
    )
