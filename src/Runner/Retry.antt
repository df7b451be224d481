-- ===== src/Runner/Retry.antt =====
-- server/src/runner/task_runner.cpp: the retries of a task. The execution strategy is a parameter,
-- and so are the readings of the cancel flag and of the clock: each attempt has its own.
use task_hub.Prelude.{
  ℕ, Text, text, ◌+◌, ◌<◌, ◌≤◌, ◌++◌, ◌==◌, ◌||◌, ◌&&◌, Bool, arith, if◌then◌else◌, pos_part, suc,
  ℤ, pos, true, ◌+ℤ◌, ◌≡◌, Bool-cases, false, leb_ℤ, zero, inl, ◌⊎◌, inr, +ℤ_parts, Text-Eq, Option,
  ◌<ℤ◌, ltb_ℤ, some, none, ◌>>=◌, refl,
}
use task_hub.Runner.Task.{TaskConfig, TaskResult, TaskStatus, default_result, is_ok, has_timeout}

-- What `dispatchExec` does: it returns a result, or throws an exception, with its message or with none.
pub data Execution : Type 0 where
  returned : TaskResult → Execution
  thrown : Text → Execution
  thrown_unknown : Execution

-- What one attempt meets. `deadline_passed` is the test `deadline <= now` of `runOneAttempt`;
-- without an external flag, both flags of cancellation read false before a strategy sets them.
pub record Attempt : Type 0 where
  pub canceled_before : Bool
  pub deadline_passed : Bool
  pub execution : Execution
  pub canceled_after : Bool
  pub canceled_in_backoff : Bool

unfoldable pub executed : Execution → TaskResult
executed (returned r) = r
executed (thrown what) = record default_result {
  status = TaskStatus.failed;
  message = text "TaskRunner: exception: " ++ what;
}
executed thrown_unknown = record default_result {
  status = TaskStatus.failed;
  message = text "TaskRunner: unknown exception";
}

abbrev pub is_terminal : TaskStatus → Bool
is_terminal TaskStatus.canceled = true
is_terminal TaskStatus.timeout = true
is_terminal _ = false

unfoldable pub run_one_attempt : TaskConfig → Attempt → TaskResult
run_one_attempt cfg a =
    let result = executed a.execution in
    if has_timeout cfg && a.deadline_passed
    then record default_result {
      status = TaskStatus.timeout;
      message = text "TaskRunner: timeout before execution";
    }
    else if a.canceled_after && is_ok result.status
    then record result { status = TaskStatus.canceled; message = text "TaskRunner: canceled" }
    else result

-- `none` is the sum that overflows an int, which the language leaves undefined.
unfoldable pub max_attempts_of : TaskConfig → Option ℤ
max_attempts_of cfg =
    let n = cfg.retry_count +ℤ pos 1 in
    if ltb_ℤ (pos 2147483647) n then none else some (if leb_ℤ n (pos 0) then pos 1 else n)

-- The result, and how many attempts were made.
pub record Outcome : Type 0 where
  pub result : TaskResult
  pub made : ℕ

-- `for (int attempt = …)`, with so many attempts left; `n` attempts have been made.
module _ (cfg : TaskConfig) (world : ℕ → Attempt) where
  unfoldable pub attempts : ℕ → ℕ → TaskResult → Outcome
  attempts zero n last = record { result = last; made = n }
  attempts (suc left) n last =
      let a = world n in
      let r = record (run_one_attempt cfg a) { attempt = pos (suc n) } in
      let later = attempts left (suc n) r in
      if a.canceled_before
      then record {
        result = record last {
          status = TaskStatus.canceled;
          message = text "TaskRunner: canceled before attempt";
        };
        made = n;
      }
      else if is_ok r.status
      then record { result = r; made = suc n }
      else if is_terminal r.status
      then record { result = r; made = suc n }
      else if left == 0
      then record { result = r; made = suc n }
      else if a.canceled_in_backoff
      then record {
        result = record r {
          status = TaskStatus.canceled;
          message = text "TaskRunner: canceled during retry backoff";
        };
        made = suc n;
      }
      else later

  unfoldable pub run_with_retry : Option Outcome
  run_with_retry = do
    most ← max_attempts_of cfg
    some (attempts (pos_part most) 0 (record default_result { max_attempts = most }))

  -- What the attempts after `n` come to, with `left` of them.
  pub record Tried (left n : ℕ) (o : Outcome) : Type 0 where
    pub at_least : n ≤ o.made
    pub at_most : o.made ≤ n + left
    pub failed_before :
        (i : ℕ)
        → n ≤ i
        → suc i < o.made
        → (is_ok (run_one_attempt cfg (world i)).status ≡ false)
          × (is_terminal (run_one_attempt cfg (world i)).status ≡ false)
    pub last_result :
        1 ≤ left
        → (o.result.status ≡ TaskStatus.canceled)
          ⊎ ((i : ℕ) × (o.made ≡ suc i)
              × (o.result ≡ record (run_one_attempt cfg (world i)) { attempt = pos (suc i) }))
    pub used_up :
        1 ≤ left
        → is_ok o.result.status ≡ false
        → is_terminal o.result.status ≡ false
        → o.made ≡ n + left

  attempts-Tried : (left n : ℕ) (last : TaskResult) → Tried left n (attempts left n last)
  unfolding attempts
  attempts-Tried zero n last = record {
    at_least = omega arith;
    at_most = omega arith;
    failed_before = λ i a b. ground arith;
    last_result = λ h. ground arith;
    used_up = λ h a b. ground arith;
  }
  attempts-Tried (suc left) n last =
      let a = world n in
      let r = record (run_one_attempt cfg a) { attempt = pos (suc n) } in
      let later = attempts-Tried left (suc n) r in
      elim (Bool-cases a.canceled_before) [
        | inl e ↦ record {
          at_least = ground arith;
          at_most = ground arith;
          failed_before = λ i a b. ground arith;
          last_result = λ h. inl (ground arith);
          used_up = λ h a b. ground arith;
        }
        | inr e ↦ elim (Bool-cases (is_ok r.status || is_terminal r.status || (left == 0))) [
          | inl stop ↦ record {
            at_least = ground arith;
            at_most = ground arith;
            failed_before = λ i a b. ground arith;
            last_result = λ h. inr (n, ground arith, ground arith);
            used_up = λ h a b. ground arith;
          }
          | inr go ↦ elim (Bool-cases a.canceled_in_backoff) [
            | inl c ↦ record {
              at_least = ground arith;
              at_most = ground arith;
              failed_before = λ i a b. ground arith;
              last_result = λ h. inl (ground arith);
              used_up = λ h a b. ground arith;
            }
            | inr c ↦
                let same : attempts (suc left) n last ≡ attempts left (suc n) r = ground arith in
                rw same (record {
                  at_least = omega (arith, later.at_least);
                  at_most = omega (arith, later.at_most);
                  failed_before = λ i a b. elim (Bool-cases (i == n)) [
                    | inl q ↦ ground arith
                    | inr q ↦ later.failed_before i (ground arith) b
                  ];
                  last_result = λ h. later.last_result (ground arith);
                  used_up = λ h a b. omega (arith, later.used_up (ground arith) a b);
                })
          ]
        ]
      ]

  -- A run with fewer retries than the largest int is defined, and makes at most the configured number
  -- of attempts, which is one more than the retries and at least 1. Every attempt but the last has
  -- failed, in a way that is neither a cancellation nor a timeout; the result is that of the last
  -- attempt, with its number, or a cancellation; and a result that is none of success, cancellation and
  -- timeout comes only after all the attempts.
  pub run_with_retry-Tried :
      cfg.retry_count <ℤ pos 2147483647
      → (most : ℕ) × (o : Outcome) × (run_with_retry ≡ some o)
        × (most ≡ suc (pos_part cfg.retry_count))
        × Tried most 0 o
  unfolding run_with_retry max_attempts_of
  run_with_retry-Tried fits =
      let n = cfg.retry_count +ℤ pos 1 in
      let most = if leb_ℤ n (pos 0) then pos 1 else n in
      let room : ltb_ℤ (pos 2147483647) n ≡ false =
        ground (arith, +ℤ_parts cfg.retry_count (pos 1)) in
      let first = record default_result { max_attempts = most } in
      let parts = +ℤ_parts cfg.retry_count (pos 1) in
      (
        pos_part most,
        attempts (pos_part most) 0 first,
        rw room refl,
        ground (arith, parts),
        attempts-Tried (pos_part most) 0 first,
      )
