-- ===== src/Execution/Remote.antt =====
-- server/src/execution/remote_strategy.cpp: what the dispatch of a task to a worker uses. The events
-- and lines that it gives out are listed in order.
use task_hub.Execution.Context.{
  ExecutionContext, TextCalls, canceled_with, timed_out_with, is_timeout,
}
use task_hub.Json.{
  Json, Fields, JsonCalls, string, object, end, set_field, find_field, is_string, member,
  assign_fields, value_with,
}
use task_hub.Log.Buffer.{LogLevel}
use task_hub.Runner.Task.{
  TaskConfig, TaskResult, TaskStatus, TaskId, default_result, exec_type_name, task_id,
}
use task_hub.Worker.Selector.{WorkerInfo}
use task_hub.Prelude.{
  ℕ, ℤ, pos, Text, text, ◌++◌, ◌==◌, Bool, true, false, Option, none, some, List, [], ◌∷◌, put,
  is_empty, ltb_ℤ, if◌then◌else◌, pos_part, ◌||◌, ◌&&◌, leb_ℤ, Text-Eq, ◌>>=◌,
}
pub mod Lines
pub mod Dispatch
pub mod Retries
pub mod Classify
pub mod Outcome
pub mod Elsewhere

pub data Output : Type 0 where
  event : LogLevel → Text → ℤ → ℤ → List (Text × Text) → Output
  stdout_line stderr_line : TaskId → Text → Output
  task_event : Text → Text → Json → Output

-- The lines of a text, from the line so far: a line that the text's end leaves empty is none.
unfoldable pub lines_from : Text → Text → List Text
lines_from line [] = if is_empty line then [] else line ∷ []
lines_from line (c ∷ cs) =
    let ended = lines_from [] cs in
    let longer = lines_from (line ++ c ∷ []) cs in if c == b'\n' then line ∷ ended else longer

unfoldable pub push_lines : (Text → Output) → List Text → List Output
push_lines f [] = []
push_lines f (l ∷ ls) = f l ∷ push_lines f ls

unfoldable pub push_lines_to_buffer : TaskId → Bool → Text → List Output
push_lines_to_buffer id is_stdout s =
    push_lines (if is_stdout then stdout_line id else stderr_line id) (lines_from [] s)

-- `http_params::is_retryable_http_status`.
unfoldable pub is_retryable_http_status : ℤ → Bool
is_retryable_http_status status = leb_ℤ (pos 500) status && leb_ℤ status (pos 599)

-- The errors of the HTTP client.
pub data HttpError : Type 0 where
  connection read write connection_timeout canceled ssl_connection ssl_server_verification :
      HttpError
  ssl_server_hostname_verification : HttpError
  other_error : ℤ → HttpError

-- What a call of a worker comes to.
pub data Reply : Type 0 where
  no_response : HttpError → Reply
  response : ℤ → Text → Reply

unfoldable pub pre_dispatch_abort : Bool → ℕ → ExecutionContext → Option TaskResult
pre_dispatch_abort is_canceled now ctx =
    if is_canceled
    then some (canceled_with (text "RemoteExecution: canceled before dispatch"))
    else if is_timeout now ctx
    then some (timed_out_with (text "RemoteExecution: timeout before dispatch"))
    else none

-- A negative number of retries is none.
unfoldable pub read_dispatch_max_retries : ℤ → ℕ
read_dispatch_max_retries configured = pos_part configured

-- The run id of the task goes with the payload, unless that has one.
unfoldable pub inject_run_id : Text → Fields → Fields
inject_run_id run_id payload =
    if is_empty run_id then payload else elim (find_field (text "run_id") payload) [
      | some (string s) ↦
          if is_empty s then set_field (text "run_id") (string run_id) payload else payload
      | _ ↦ set_field (text "run_id") (string run_id) payload
    ]

abbrev pub text_of_json : Json → Option Text
text_of_json (string s) = some s
text_of_json _ = none

unfoldable pub text_member : Text → Json → Option Text
text_member k j = member k j >>= text_of_json

module _ (t : TextCalls) where
  unfoldable pub http_error_to_string : HttpError → Text
  http_error_to_string connection = text "connection"
  http_error_to_string read = text "read"
  http_error_to_string write = text "write"
  http_error_to_string connection_timeout = text "timeout"
  http_error_to_string canceled = text "canceled"
  http_error_to_string ssl_connection = text "ssl_connection"
  http_error_to_string ssl_server_verification = text "ssl_verify"
  http_error_to_string ssl_server_hostname_verification = text "ssl_hostname_verify"
  http_error_to_string (other_error i) = text "error_" ++ t.to_string i

  unfoldable pub base_remote_fields : TaskConfig → Text → Text → Text → ℤ → List (Text × Text)
  base_remote_fields cfg queue id host port =
      let f = put (text "queue") queue (put (text "exec_type") (exec_type_name cfg.exec_type) []) in
      let g = if is_empty id then f else put (text "worker_id") id f in
      let h = if is_empty host then g else put (text "worker_host") host g in
      if ltb_ℤ (pos 0) port then put (text "worker_port") (t.to_string port) h else h

  abbrev pub worker_fields : TaskConfig → Text → WorkerInfo → List (Text × Text)
  worker_fields cfg queue w = base_remote_fields cfg queue w.id w.host w.port

  abbrev pub worker_extra_json : WorkerInfo → Fields
  worker_extra_json w =
      assign_fields
        ((text "worker_id", string w.id)
          ∷ (text "worker_host", string w.host)
          ∷ (text "worker_port", string (t.to_string w.port))
          ∷ [])
        end

  abbrev pub push_ws_task_event : Text → Text → WorkerInfo → List (Text × Json) → Output
  push_ws_task_event id name w extra =
      task_event id name (object (assign_fields extra (worker_extra_json w)))

-- Two events: the headline, and the message.
abbrev pub emit_dispatch_end_with_message :
    LogLevel → Text → ℤ → ℤ → List (Text × Text) → Text → List Output
emit_dispatch_end_with_message level headline duration attempt fields message =
    event level headline duration attempt fields ∷ event level message duration attempt fields ∷ []

module _ (c : JsonCalls) where
  -- A message of a text, or the error, or words of the strategy's own.
  unfoldable pub ack_message : Bool → Json → Text
  ack_message ok payload = elim (text_member (text "message") payload) [
    | some s ↦ s
    | none ↦ elim (text_member (text "error") payload) [
      | some s ↦ s
      | none ↦ if ok then text "remote dispatch ok" else text "remote dispatch failed"
    ]
  ]

  unfoldable pub ack_metadata : Json → List (Text × Text)
  ack_metadata payload =
      let run : List (Text × Text) = elim (text_member (text "run_id") payload) [
        | some s ↦ put (text "run_id") s []
        | none ↦ []
      ] in
      elim (member (text "task_ids") payload) [
        | some ids ↦ put (text "task_ids") (c.dump ids) run
        | none ↦ run
      ]

  -- A run id tells that the worker has taken the task. `none` is an exception.
  unfoldable pub build_dispatch_ack_result : Json → Option TaskResult
  build_dispatch_ack_result payload = do
    said ← value_with c.get_bool (text "ok") false payload
    let has_run : Bool = elim (text_member (text "run_id") payload) [ none ↦ false | some s ↦ true ]
    let ok = said || has_run
    some (record default_result {
      status = if ok then TaskStatus.success else TaskStatus.failed;
      exit_code = pos (if ok then 0 else 1);
      message = ack_message ok payload;
      metadata = ack_metadata payload;
    })
