-- ===== src/Runner/ConfigJson/RoundTrip.antt =====
-- server/src/runner/task_config.h: a request that was built is read back.
use task_hub.Runner.ConfigJson.{to_priority_int}
use task_hub.Runner.Task.{
  TaskConfig, task_id, TaskPriority, high, other_priority, low, normal, critical,
}
use task_hub.Json.{IsInt32, IsInt64}
use task_hub.Prelude.{◌≡◌, find, [], Text, true, Text-Eq, ◌<ℤ◌, negsuc, ◌⊎◌, pos}

-- Critical becomes high, and any other priority stays.
abbrev pub received_priority : TaskPriority → TaskPriority
received_priority low = low
received_priority normal = normal
received_priority high = high
received_priority critical = high
received_priority (other_priority i) = other_priority i

-- A priority without a name is a number that no name has.
abbrev pub IsNamed : TaskPriority → Type 0
IsNamed (other_priority i) = (i <ℤ negsuc 0) ⊎ (pos 2 <ℤ i)
IsNamed _ = Unit {0}

-- What stays of a task that is sent: its run, its description and whether it can be canceled are
-- not part of the request, and a critical task is received as a high one.
pub record IsReceived (cfg r : TaskConfig) : Type 0 where
  pub same_id : r.id ≡ task_id cfg.id.value []
  pub same_name : r.name ≡ cfg.name
  pub no_description : r.description ≡ []
  pub same_exec_type : r.exec_type ≡ cfg.exec_type
  pub same_exec_command : r.exec_command ≡ cfg.exec_command
  pub same_exec_params : (k : Text) → find k r.exec_params ≡ find k cfg.exec_params
  pub same_timeout : r.timeout_ms ≡ cfg.timeout_ms
  pub same_retry_count : r.retry_count ≡ cfg.retry_count
  pub same_retry_delay : r.retry_delay_ms ≡ cfg.retry_delay_ms
  pub same_backoff : r.retry_use_exponential_backoff ≡ cfg.retry_use_exponential_backoff
  pub is_cancelable : r.cancelable ≡ true
  pub limited_priority : r.priority ≡ received_priority cfg.priority
  pub same_queue : r.queue ≡ cfg.queue
  pub same_metadata : (k : Text) → find k r.metadata ≡ find k cfg.metadata
  pub same_capture_output : r.capture_output ≡ cfg.capture_output

-- The numbers of the configuration are in the ranges of their types.
pub record IsMachine (cfg : TaskConfig) : Type 0 where
  pub timeout_fits : IsInt64 cfg.timeout_ms
  pub delay_fits : IsInt64 cfg.retry_delay_ms
  pub count_fits : IsInt32 cfg.retry_count
  pub priority_fits : IsInt32 (to_priority_int cfg.priority)
  pub priority_named : IsNamed cfg.priority
