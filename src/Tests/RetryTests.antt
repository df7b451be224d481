-- ===== src/Tests/RetryTests.antt =====
-- A task that succeeds at its third attempt.
use task_hub.Runner.Task.{TaskConfig, default_config, default_result, TaskStatus}
use task_hub.Runner.Retry.{
  Attempt, run_with_retry, max_attempts_of, Tried, attempts, returned, run_one_attempt,
  run_with_retry-Tried, executed, thrown, Outcome,
}
use task_hub.Prelude.{
  ℕ, text, ◌≡◌, refl, pos, if◌then◌else◌, false, ◌==◌, ◌+ℤ◌, Text-Eq, some, arith,
}

abbrev twice_more : TaskConfig
twice_more = record default_config { retry_count = pos 2 }

abbrev third_time : ℕ → Attempt
third_time n = record {
  canceled_before = false;
  deadline_passed = false;
  execution =
      if n == 2
      then returned (record default_result { status = TaskStatus.success })
      else thrown (text "busy");
  canceled_after = false;
  canceled_in_backoff = false;
}

third_made : (o : Outcome) × (run_with_retry twice_more third_time ≡ some o) × (o.made ≡ 3)
unfolding run_with_retry max_attempts_of attempts run_one_attempt executed ◌+ℤ◌
third_made = (
  attempts twice_more third_time 3 0 (record default_result { max_attempts = pos 3 }),
  refl,
  refl,
)

run_with_retry-Tried_example :
    (most : ℕ) × (o : Outcome) × (run_with_retry twice_more third_time ≡ some o)
    × (most ≡ 3)
    × Tried twice_more third_time most 0 o
run_with_retry-Tried_example = run_with_retry-Tried twice_more third_time (omega arith)
