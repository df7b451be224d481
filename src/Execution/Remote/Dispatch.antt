-- ===== src/Execution/Remote/Dispatch.antt =====
-- server/src/execution/remote_strategy.cpp: one dispatch of a task to a worker.
use task_hub.Execution.Context.{ExecutionContext, TextCalls}
use task_hub.Execution.Remote.{
  Output, Reply, HttpError, event, worker_fields, push_ws_task_event,
  emit_dispatch_end_with_message, push_lines_to_buffer, is_retryable_http_status,
  build_dispatch_ack_result, inject_run_id, http_error_to_string, no_response, response,
}
use task_hub.Json.{Json, Fields, JsonCalls, string, object, member}
use task_hub.Log.Buffer.{debug, info, warn, error}
use task_hub.Runner.ResultJson.{status_to_int}
use task_hub.Runner.Task.{TaskConfig, TaskResult, TaskStatus, default_result, status_name, is_ok}
use task_hub.Worker.Selector.{WorkerInfo}
use task_hub.Prelude.{
  ℕ, ℤ, pos, Text, text, Text-Eq, ◌++◌, ◌-◌, ◌/◌, Bool, true, false, Option, none, some, List, [],
  ◌∷◌, put, is_empty, leb, leb_ℤ, ltb_ℤ, if◌then◌else◌, ◌||◌, ◌>>=◌, ◌==◌, ◌%◌, ◌*◌,
}

pub record DispatchAttemptResult : Type 0 where
  pub result : TaskResult
  pub retryable : Bool
  pub retry_reason : Text

-- What one dispatch meets: the readings of the clock before the call, when it starts, when it ends
-- and after it, in nanoseconds, the cancel flag after it, and the answer of a worker to a payload, with
-- so many seconds and microseconds to read it.
pub record Call : Type 0 where
  pub before_at : ℕ
  pub start_at : ℕ
  pub end_at : ℕ
  pub after_at : ℕ
  pub is_canceled : Bool
  pub reply : WorkerInfo → ℕ × ℕ → Text → Reply

-- `duration_cast` to milliseconds.
abbrev pub elapsed_ms : ℕ → ℕ → ℤ
elapsed_ms start end = pos ((end - start) / 1000000)

abbrev pub with_worker : WorkerInfo → TaskResult → TaskResult
with_worker w r = record r { worker_id = w.id; worker_host = w.host; worker_port = w.port }

-- Whether a deadline has passed at a time.
abbrev pub has_passed : Option ℕ → ℕ → Bool
has_passed none now = false
has_passed (some d) now = leb d now

-- The time that is left, in whole milliseconds and at least one of them; without a deadline, a minute.
unfoldable pub read_timeout : Option ℕ → ℕ → ℕ × ℕ
read_timeout none now = (60, 0)
read_timeout (some d) now =
    let ms = (d - now) / 1000000 in
    let remain = if ms == 0 then 1 else ms in (remain / 1000, remain % 1000 * 1000)

-- The answer itself, or its member `data`.
unfoldable pub payload_of : Json → Json
payload_of j = elim (member (text "data") j) [ some (object fs) ↦ object fs | _ ↦ j ]

module _ (t : TextCalls) (c : JsonCalls) (ctx : ExecutionContext) (queue : Text)
    (w : WorkerInfo) where
  abbrev cfg : TaskConfig
  cfg = ctx.config

  abbrev status_code : TaskResult → Text
  status_code r = t.to_string (status_to_int r.status)

  unfoldable pub timed_out_before : DispatchAttemptResult × List Output
  timed_out_before =
      let r = with_worker w (record default_result {
        status = TaskStatus.timeout;
        message = text "RemoteExecution: timeout before http call";
      }) in
      (
        record { result = r; retryable = false; retry_reason = [] },
        emit_dispatch_end_with_message warn
            (text "RemoteExecution: dispatch end (timeout before http)") r.duration_ms r.attempt
            (put (text "status") (status_code r) (worker_fields t cfg queue w)) r.message,
      )

  -- Without an answer, the flag and the clock tell why.
  unfoldable pub no_answer_status : Call → TaskStatus
  no_answer_status k =
      if k.is_canceled
      then TaskStatus.canceled
      else if has_passed ctx.deadline k.after_at
      then TaskStatus.timeout
      else TaskStatus.failed

  abbrev no_answer_message : TaskStatus → Text
  no_answer_message TaskStatus.canceled = text "RemoteExecution: canceled during http call"
  no_answer_message TaskStatus.timeout = text "RemoteExecution: timeout during http call"
  no_answer_message _ = text "RemoteExecution: HTTP failed (no response)"

  abbrev no_answer_reason : TaskStatus → Text
  no_answer_reason TaskStatus.canceled = text "canceled"
  no_answer_reason TaskStatus.timeout = text "timeout"
  no_answer_reason _ = text "no_response"

  abbrev is_failed : TaskStatus → Bool
  is_failed TaskStatus.failed = true
  is_failed _ = false

  abbrev timed_fields : TaskResult → List (Text × Text)
  timed_fields r =
      put (text "duration_ms") (t.to_string r.duration_ms) (worker_fields t cfg queue w)

  unfoldable pub no_answer : Call → HttpError → TaskResult → DispatchAttemptResult × List Output
  no_answer k e attempt =
      let st = no_answer_status k in
      let r = record attempt { status = st; message = no_answer_message st } in
      let failed = is_failed st in
      (
        record {
          result = r;
          retryable = failed;
          retry_reason = if failed then http_error_to_string t e else [];
        },
        emit_dispatch_end_with_message error
              (text "RemoteExecution: dispatch end (http no response)") r.duration_ms r.attempt
              (put (text "status") (status_name st) (timed_fields r)) r.message
            ++ push_ws_task_event t cfg.id.value (text "remote_failed") w
                ((text "reason", string (no_answer_reason st)) ∷ [])
              ∷ [],
      )

  -- The body of such an answer is taken for an error message.
  unfoldable pub bad_status : ℤ → Text → TaskResult → DispatchAttemptResult × List Output
  bad_status status reply_body attempt =
      let r = record attempt {
        status = TaskStatus.failed;
        message = text "RemoteExecution: HTTP status=" ++ t.to_string status;
        stderr_data = reply_body;
      } in
      let again = is_retryable_http_status status in
      (
        record {
          result = r;
          retryable = again;
          retry_reason = if again then text "http_" ++ t.to_string status else [];
        },
        push_lines_to_buffer cfg.id false reply_body
            ++ emit_dispatch_end_with_message error
                (text "RemoteExecution: dispatch end (http non-200)") r.duration_ms r.attempt
                (put (text "http_status") (t.to_string status)
                  (put (text "status") (status_name r.status) (timed_fields r)))
                r.message
            ++ push_ws_task_event t cfg.id.value (text "remote_failed") w (
                (text "reason", string (text "http_status"))
                ∷ (text "http_status", string (t.to_string status))
                ∷ [])
              ∷ [],
      )

  unfoldable pub invalid_json : Text → TaskResult → DispatchAttemptResult × List Output
  invalid_json reply_body attempt =
      let r = record attempt {
        status = TaskStatus.failed;
        message = text "RemoteExecution: invalid JSON response";
        stderr_data = reply_body;
      } in
      (
        record { result = r; retryable = false; retry_reason = [] },
        push_lines_to_buffer cfg.id false reply_body
            ++ emit_dispatch_end_with_message error
                (text "RemoteExecution: dispatch end (invalid json)") r.duration_ms r.attempt
                (put (text "status") (status_code r) (timed_fields r)) r.message
            ++ push_ws_task_event t cfg.id.value (text "remote_failed") w
                ((text "reason", string (text "invalid_json")) ∷ [])
              ∷ [],
      )

  abbrev end_fields : TaskResult → List (Text × Text)
  end_fields r =
      let f =
        put (text "exit_code") (t.to_string r.exit_code)
          (put (text "status") (status_code r) (timed_fields r)) in
      if is_empty r.message then f else put (text "message") r.message f

  -- `none` is an exception.
  unfoldable pub acknowledged : Json → TaskResult → Option (DispatchAttemptResult × List Output)
  acknowledged j attempt = do
    parsed ← build_dispatch_ack_result c (payload_of j)
    let placed = with_worker w parsed
    let r = record placed {
      duration_ms =
          if leb_ℤ parsed.duration_ms (pos 0) then attempt.duration_ms else parsed.duration_ms;
    }
    let captured =
        push_lines_to_buffer cfg.id true parsed.stdout_data
        ++ push_lines_to_buffer cfg.id false parsed.stderr_data
    some (
      record { result = r; retryable = false; retry_reason = [] },
      (if cfg.capture_output then captured else [])
          ++ event (if is_ok r.status then info else warn) (text "RemoteExecution: dispatch end")
              r.duration_ms r.attempt (end_fields r)
            ∷ [],
    )

  unfoldable pub answered : Call → Reply → TaskResult → Option (DispatchAttemptResult × List Output)
  answered k (no_response e) attempt = some (no_answer k e attempt)
  answered k (response status reply_body) attempt =
      if ltb_ℤ status (pos 200) || leb_ℤ (pos 300) status
      then some (bad_status status reply_body attempt)
      else elim (t.parse reply_body) [
        | none ↦ some (invalid_json reply_body attempt)
        | some j ↦ acknowledged j attempt
      ]

  -- The result before the answer is read.
  abbrev pub called_attempt : Call → TaskResult
  called_attempt k =
      with_worker w (record default_result { duration_ms = elapsed_ms k.start_at k.end_at })

  unfoldable pub dispatch_once : Call → Fields → Option (DispatchAttemptResult × List Output)
  dispatch_once k payload =
      if has_passed ctx.deadline k.before_at
      then some timed_out_before
      else let sent = c.dump (object (inject_run_id cfg.id.run_id payload)) in
        let attempt = called_attempt k in
        let called =
          event debug (text "RemoteExecution: http call finished") attempt.duration_ms
            attempt.attempt (timed_fields attempt)
          ∷ push_ws_task_event t cfg.id.value (text "remote_dispatch") w []
          ∷ [] in
        do
          done ← answered k (k.reply w (read_timeout ctx.deadline k.before_at) sent) attempt
          some (done.0, called ++ done.1)
