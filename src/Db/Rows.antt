-- ===== src/Db/Rows.antt =====
-- server/src/db/task_run_repo.h: a row of the table of task runs, the record of a node's execution.
use task_hub.Prelude.{ℤ, Text}

pub record TaskRunRow : Type 0 where
  pub id : ℤ
  pub run_id : Text
  pub logical_id : Text
  pub task_id : Text
  pub name : Text
  pub exec_type : Text
  pub exec_command : Text
  pub exec_params_json : Text
  pub deps_json : Text
  pub status : ℤ
  pub exit_code : ℤ
  pub duration_ms : ℤ
  pub message : Text
  pub stdout_text : Text
  pub stderr_text : Text
  pub attempt : ℤ
  pub max_attempts : ℤ
  pub start_ts_ms : ℤ
  pub end_ts_ms : ℤ
  pub worker_id : Text
  pub worker_host : Text
  pub worker_port : ℤ
  pub metadata_json : Text
