-- ===== src/Core/Execute.antt =====
-- server/src/core/worker_pool.cpp: `execute_one_task`. The task is shared with its manager, so that
-- an update stores it as it is. What each attempt gives, and what the flag says whenever it is read,
-- is given by the surroundings.
use task_hub.Prelude.{
  ℕ, [], ◌∷◌, ◌++◌, text, ℤ, pos, Bool, false, true, not, some, none, Option, List, suc,
  if◌then◌else◌, ◌^◌, zero, ◌||◌, Text, eqb_ℤ, ltb_ℤ, Text-Eq, ◌>>=◌,
}
use task_hub.Core.Task.{Task, TaskStatus}
pub mod Outcome

-- `ExecResult`.
pub record ExecResult : Type 0 where
  pub exit_code : ℤ
  pub output : Text
  pub error : Text
  pub timed_out : Bool

-- The flag before the task is begun, before the attempt of each number, from 0, and at the end; the
-- result of the attempt of each number, which is `none` where its command never ends, as a task without
-- a limit of time lets it; and the time.
pub record Surroundings : Type 0 where
  pub canceled_first : Bool
  pub canceled_before : ℕ → Bool
  pub canceled_last : Bool
  pub attempt_result : ℕ → Option ExecResult
  pub now : Text

-- The variables of the loop when it is left, the waits between the attempts, in seconds, and the
-- numbers of retries that are broadcast. A wait after more than 31 attempts, which is after 68
-- years, shifts too far.
pub record Ended : Type 0 where
  pub final_canceled : Bool
  pub final_timeout : Bool
  pub final_exit_code : ℤ
  pub final_out : Text
  pub final_err : Text
  pub retry_count : ℤ
  pub waits : List ℕ
  pub told : List ℤ

unfoldable pub no_attempt : ℤ → Ended
no_attempt retry_count = record {
  final_canceled = false;
  final_timeout = false;
  final_exit_code = pos 0;
  final_out = [];
  final_err = [];
  retry_count = retry_count;
  waits = [];
  told = [];
}

abbrev after_attempt : ExecResult → Ended → Ended
after_attempt r e = record e {
  final_timeout = r.timed_out;
  final_exit_code = r.exit_code;
  final_out = r.output;
  final_err = r.error;
}

-- An attempt of a number, from 0, that fails: it is counted as a retry.
abbrev pub failed_attempt : ℕ → ExecResult → Ended → Ended
failed_attempt attempt r e = record (after_attempt r e) {
  retry_count = pos (suc attempt);
  told = e.told ++ pos (suc attempt) ∷ [];
}

abbrev pub wait_after : ℕ → Ended → Ended
wait_after attempt e = record e { waits = e.waits ++ 2 ^ attempt ∷ [] }

module _ (s : Surroundings) (max_retries : ℤ) where
  -- What follows an attempt: the end of the loop, or what comes of the later attempts.
  abbrev pub after_result : ℕ → ExecResult → Ended → Option Ended → Option Ended
  after_result attempt r e again =
      if r.timed_out
      then some (after_attempt r e)
      else if eqb_ℤ r.exit_code (pos 0)
      then some (after_attempt r e)
      else if ltb_ℤ max_retries (pos (suc attempt))
      then some (failed_attempt attempt r e)
      else again

  -- The loop, with the number of attempts that have failed; `none` is out of fuel, or an attempt that
  -- does not return.
  unfoldable pub attempts : ℕ → ℕ → Ended → Option Ended
  attempts zero attempt e = none
  attempts (suc fuel) attempt e =
      if s.canceled_before attempt
      then some (record e { final_canceled = true })
      else elim (s.attempt_result attempt) [
        | none ↦ none
        | some r ↦
            after_result attempt r e
              (attempts fuel (suc attempt) (wait_after attempt (failed_attempt attempt r e)))
      ]

unfoldable pub final_status : Surroundings → Ended → TaskStatus
final_status s e =
    if e.final_canceled || s.canceled_last
    then TaskStatus.canceled
    else if e.final_timeout
    then TaskStatus.timeout
    else if eqb_ℤ e.final_exit_code (pos 0)
    then TaskStatus.success
    else TaskStatus.failed

-- The tasks that are broadcast: as it begins, after each attempt that fails, and at the end.
unfoldable pub told_tasks : Task → List ℤ → List Task
told_tasks t [] = []
told_tasks t (k ∷ ks) = record t { retry_count = k } ∷ told_tasks t ks

abbrev pub running_task : Surroundings → Task → Task
running_task s t = record t { status = TaskStatus.running; update_time = s.now }

abbrev pub ended_task : Surroundings → Task → Ended → Task
ended_task s t e = record t {
  status = final_status s e;
  update_time = s.now;
  exit_code = e.final_exit_code;
  last_output = e.final_out;
  last_error = e.final_err;
  retry_count = e.retry_count;
}

-- The task at the end, and the tasks that are broadcast.
unfoldable pub execute_one_task : Surroundings → ℕ → Task → Option (Task × List Task)
execute_one_task s fuel t =
    let canceled = record t { status = TaskStatus.canceled; update_time = s.now } in
    let running = running_task s t in
    if s.canceled_first
    then some (canceled, canceled ∷ [])
    else elim (attempts s t.max_retries fuel 0 (no_attempt t.retry_count)) [
      | none ↦ none
      | some e ↦
          some (ended_task s t e, running ∷ (told_tasks running e.told ++ ended_task s t e ∷ []))
    ]
