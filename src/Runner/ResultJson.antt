-- ===== src/Runner/ResultJson.antt =====
-- server/src/runner/task_result.h: the JSON form of a result.
use task_hub.Runner.ConfigJson.{params_to_fields}
use task_hub.Runner.Task.{TaskStatus, TaskResult}
use task_hub.Json.{Json, integer, string, object, object_of}
use task_hub.Prelude.{ℤ, pos, text, [], ◌∷◌}

-- `static_cast<int>`.
unfoldable pub status_to_int : TaskStatus → ℤ
status_to_int TaskStatus.pending = pos 0
status_to_int TaskStatus.running = pos 1
status_to_int TaskStatus.success = pos 2
status_to_int TaskStatus.failed = pos 3
status_to_int TaskStatus.skipped = pos 4
status_to_int TaskStatus.canceled = pos 5
status_to_int TaskStatus.timeout = pos 6

-- The keys of the metadata are distinct, so that the order of the assignments does not count.
unfoldable pub task_result_to_json : TaskResult → Json
task_result_to_json r = object_of (
    (text "status", integer (status_to_int r.status))
    ∷ (text "message", string r.message)
    ∷ (text "exit_code", integer r.exit_code)
    ∷ (text "duration_ms", integer r.duration_ms)
    ∷ (text "stdout", string r.stdout_data)
    ∷ (text "stderr", string r.stderr_data)
    ∷ (text "attempt", integer r.attempt)
    ∷ (text "max_attempts", integer r.max_attempts)
    ∷ (text "metadata", object (params_to_fields r.metadata))
    ∷ [])
