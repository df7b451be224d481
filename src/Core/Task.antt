-- ===== src/Core/Task.antt =====
-- server/src/core/task.h: a task and its status.
use task_hub.Json.{Json, null}
use task_hub.Prelude.{ℕ, Text, ◌≡◌, refl, [], text, ℤ, pos, Bool, false, text_eq, if◌then◌else◌}

pub data TaskStatus : Type 0 where
  pending running success failed canceled timeout : TaskStatus

unfoldable pub status_to_string : TaskStatus → Text
status_to_string TaskStatus.pending = text "pending"
status_to_string TaskStatus.running = text "running"
status_to_string TaskStatus.success = text "success"
status_to_string TaskStatus.failed = text "failed"
status_to_string TaskStatus.canceled = text "canceled"
status_to_string TaskStatus.timeout = text "timeout"

unfoldable pub string_to_status : Text → TaskStatus
unfolding text_eq
string_to_status s =
    if text_eq s (text "pending")
    then TaskStatus.pending
    else if text_eq s (text "running")
    then TaskStatus.running
    else if text_eq s (text "success")
    then TaskStatus.success
    else if text_eq s (text "canceled")
    then TaskStatus.canceled
    else if text_eq s (text "timeout")
    then TaskStatus.timeout
    else TaskStatus.failed

pub record Task : Type 0 where
  pub id : ℕ
  pub name : Text
  pub type : ℤ
  pub status : TaskStatus
  pub create_time : Text
  pub update_time : Text
  pub params : Json
  pub exit_code : ℤ
  pub last_output : Text
  pub last_error : Text
  pub max_retries : ℤ
  pub retry_count : ℤ
  pub timeout_sec : ℤ
  pub cancel_flag : Bool

-- The member initialisers of `Task`.
abbrev pub default_task : Task
default_task = record {
  id = 0;
  name = [];
  type = pos 0;
  status = TaskStatus.pending;
  create_time = [];
  update_time = [];
  params = null;
  exit_code = pos 0;
  last_output = [];
  last_error = [];
  max_retries = pos 0;
  retry_count = pos 0;
  timeout_sec = pos 0;
  cancel_flag = false;
}

-- Every status is read back from the text that the database holds for it.
pub string_to_status-status_to_string : (s : TaskStatus) → string_to_status (status_to_string s) ≡ s
unfolding string_to_status status_to_string
string_to_status-status_to_string TaskStatus.pending = refl
string_to_status-status_to_string _ = refl
