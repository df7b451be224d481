-- ===== src/Runner/Task.antt =====
-- server/src/runner/task_common.h, task_result.h and task_config.h: the identity, the status, the
-- result and the configuration of a task.
use task_hub.Prelude.{
  ℕ, if◌then◌else◌, Text, text, Eq, text_eq, text_eq_iff, Text-Eq, ◌≡◌, ◌↔◌, Bool, true, false,
  ◌&&◌, ◌||◌, List, [], map, ℤ, pos, leb, ltb_ℤ, arith, ◌+◌,
}

pub data TaskStatus : Type 0 where
  pending running success failed skipped canceled timeout : TaskStatus

-- `value` names a task within a run, and `run_id` the run; an empty `run_id` is no run.
pub record TaskId : Type 0 where
  pub value : Text
  pub run_id : Text

abbrev pub task_id : Text → Text → TaskId
task_id v r = record { value = v; run_id = r }

-- The order of `std::map<TaskId, …>` tells two ids apart by both fields.
unfoldable pub task_id_eq : TaskId → TaskId → Bool
task_id_eq a b = text_eq a.value b.value && text_eq a.run_id b.run_id

pub task_id_eq_iff : (a b : TaskId) → (task_id_eq a b ≡ true) ↔ (a ≡ b)
unfolding task_id_eq
task_id_eq_iff a b = ground (arith, text_eq_iff a.value b.value, text_eq_iff a.run_id b.run_id)

instance abbrev pub TaskId-Eq : Eq TaskId
TaskId-Eq = record { beq = task_id_eq; beq_iff = task_id_eq_iff }

unfoldable pub status_name : TaskStatus → Text
status_name TaskStatus.pending = text "Pending"
status_name TaskStatus.running = text "Running"
status_name TaskStatus.success = text "Success"
status_name TaskStatus.failed = text "Failed"
status_name TaskStatus.skipped = text "Skipped"
status_name TaskStatus.canceled = text "Canceled"
status_name TaskStatus.timeout = text "Timeout"

-- std::tolower in the C locale.
unfoldable pub to_lower : ℕ → ℕ
to_lower c = if leb b'A' c && leb c b'Z' then c + 32 else c

-- `TaskExecTypetoStatus`: despite its name it reads a status, in any case of letters.
unfoldable pub status_of_name : Text → TaskStatus
unfolding to_lower text_eq
status_of_name s =
    let t = map to_lower s in
    if text_eq t (text "unknown")
    then TaskStatus.failed
    else if text_eq t (text "pending")
    then TaskStatus.pending
    else if text_eq t (text "running")
    then TaskStatus.running
    else if text_eq t (text "success")
    then TaskStatus.success
    else if text_eq t (text "failed")
    then TaskStatus.failed
    else if text_eq t (text "skipped")
    then TaskStatus.skipped
    else if text_eq t (text "canceled")
    then TaskStatus.canceled
    else if text_eq t (text "timeout")
    then TaskStatus.timeout
    else TaskStatus.failed

-- The enumeration is of type `int`, and a cast gives it any other value.
pub data TaskPriority : Type 0 where
  low normal high critical : TaskPriority
  other_priority : ℤ → TaskPriority

pub data TaskExecType : Type 0 where
  local remote script http_call shell dag template : TaskExecType

unfoldable pub exec_type_name : TaskExecType → Text
exec_type_name local = text "Local"
exec_type_name remote = text "Remote"
exec_type_name script = text "Script"
exec_type_name http_call = text "HttpCall"
exec_type_name shell = text "Shell"
exec_type_name dag = text "Dag"
exec_type_name template = text "Template"

unfoldable pub exec_type_of_name : Text → TaskExecType
unfolding to_lower text_eq
exec_type_of_name s =
    let t = map to_lower s in
    if text_eq t (text "local")
    then local
    else if text_eq t (text "remote")
    then remote
    else if text_eq t (text "script")
    then script
    else if text_eq t (text "httpcall") || text_eq t (text "http_call") || text_eq t (text "http")
    then http_call
    else if text_eq t (text "shell")
    then shell
    else if text_eq t (text "dag")
    then dag
    else if text_eq t (text "template") || text_eq t (text "temple")
    then template
    else local

pub record TaskResult : Type 0 where
  pub status : TaskStatus
  pub message : Text
  pub duration_ms : ℤ
  pub stdout_data : Text
  pub stderr_data : Text
  pub exit_code : ℤ
  pub attempt : ℤ
  pub max_attempts : ℤ
  pub worker_id : Text
  pub worker_host : Text
  pub worker_port : ℤ
  pub metadata : List (Text × Text)

-- The member initialisers of `TaskResult`.
abbrev pub default_result : TaskResult
default_result = record {
  status = TaskStatus.pending;
  message = [];
  duration_ms = pos 0;
  stdout_data = [];
  stderr_data = [];
  exit_code = pos 0;
  attempt = pos 1;
  max_attempts = pos 1;
  worker_id = [];
  worker_host = [];
  worker_port = pos 0;
  metadata = [];
}

abbrev pub is_ok : TaskStatus → Bool
is_ok TaskStatus.success = true
is_ok _ = false

pub record TaskConfig : Type 0 where
  pub id : TaskId
  pub name : Text
  pub description : Text
  pub exec_type : TaskExecType
  pub exec_command : Text
  pub exec_params : List (Text × Text)
  pub timeout_ms : ℤ
  pub retry_count : ℤ
  pub retry_delay_ms : ℤ
  pub retry_use_exponential_backoff : Bool
  pub cancelable : Bool
  pub priority : TaskPriority
  pub queue : Text
  pub metadata : List (Text × Text)
  pub capture_output : Bool

-- The member initialisers of `TaskConfig`.
abbrev pub default_config : TaskConfig
default_config = record {
  id = task_id [] [];
  name = [];
  description = [];
  exec_type = local;
  exec_command = [];
  exec_params = [];
  timeout_ms = pos 0;
  retry_count = pos 0;
  retry_delay_ms = pos 1000;
  retry_use_exponential_backoff = true;
  cancelable = true;
  priority = normal;
  queue = [];
  metadata = [];
  capture_output = true;
}

abbrev pub has_timeout : TaskConfig → Bool
has_timeout cfg = ltb_ℤ (pos 0) cfg.timeout_ms
