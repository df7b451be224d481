-- ===== src/Handlers/Tasks.antt =====
-- server/src/handlers/task_handler.cpp: the tasks of the task manager, and runs of DAGs.
use task_hub.Core.Manager.{Manager, Statement, add_task, get_task, update_task}
use task_hub.Core.Task.{Task, TaskStatus, status_to_string}
use task_hub.Dag.Service.{ServiceCalls, DagResult, Mark, run_dag}
use task_hub.Db.Rows.{TaskRunRow}
use task_hub.Execution.Remote.{text_member}
use task_hub.Handlers.Http.{
  Request, Response, Answer, answered, thrown, has_param, param_value, get_int, clamp, respond,
  respond_ok, respond_error, bad_request, not_found,
}
use task_hub.Handlers.Templates.Runs.{nodes_json}
use task_hub.Json.{
  Json, Items, nil, cons, Fields, end, JsonCalls, array, boolean, integer, null, string, object,
  object_of, unsigned, value_with, items_of,
}
use task_hub.Prelude.{
  ℕ, ℤ, pos, pos_part, Text, text, Bool, true, false, Option, none, some, List, [], ◌∷◌, is_empty,
  map, ltb_ℤ, leb_ℤ, if◌then◌else◌, ◌>>=◌, ◌||◌, Text-Eq, negsuc, ◌-◌,
}
pub mod Cancel

-- What these handlers use besides the service: `std::stoull`, the text of the clock, and the message
-- of the exception that a body makes a run throw.
pub record TaskServer : Type 0 where
  pub service : ServiceCalls
  pub stoull : Text → Option ℕ
  pub now : Text
  pub error_of : Text → Text

unfoldable pub task_to_json : Task → Json
task_to_json t = object_of (
    (text "id", unsigned t.id)
    ∷ (text "name", string t.name)
    ∷ (text "type", integer t.type)
    ∷ (text "status", string (status_to_string t.status))
    ∷ (text "create_time", string t.create_time)
    ∷ (text "update_time", string t.update_time)
    ∷ (text "params", t.params)
    ∷ (text "exit_code", integer t.exit_code)
    ∷ (text "last_output", string t.last_output)
    ∷ (text "last_error", string t.last_error)
    ∷ (text "max_retries", integer t.max_retries)
    ∷ (text "retry_count", integer t.retry_count)
    ∷ (text "timeout_sec", integer t.timeout_sec)
    ∷ (text "cancel_flag", boolean t.cancel_flag)
    ∷ [])

-- The statuses that a task cannot be canceled in.
abbrev pub is_finished : TaskStatus → Bool
is_finished TaskStatus.pending = false
is_finished TaskStatus.running = false
is_finished _ = true

-- What a handler does to the rest of the server: it submits a task to the worker pool, or tells the
-- sessions of a task's change.
pub data TaskEffect : Type 0 where
  submitted : ℕ → TaskEffect
  broadcast : Text → Task → TaskEffect

module _ (s : TaskServer) where
  abbrev json_calls : JsonCalls
  json_calls = s.service.json

  -- The name, the type and the parameters of a new task, or no name. `none` is an exception.
  unfoldable pub task_request : Json → Option (Option (Text × ℤ × Json))
  task_request j = do
    name ← value_with json_calls.get_text (text "name") [] j
    if is_empty name then some none else (do
      type ← value_with json_calls.get_int (text "type") (pos 0) j
      params ← value_with some (text "params") (object end) j
      some (some (name, type, params)))

  abbrev invalid : Response
  invalid = bad_request json_calls (text "Invalid JSON") (pos 1002)

  unfoldable pub create : Request → Manager → Response × Manager × List TaskEffect
  create req m = elim (s.service.texts.parse req.body >>= task_request) [
    | none ↦ (invalid, m, [])
    | some none ↦ (bad_request json_calls (text "Missing 'name' field") (pos 1001), m, [])
    | some (some (name, type, params)) ↦
        let (made, m') = add_task json_calls s.now name type params m in
        elim made [
          | none ↦ (invalid, m', [])
          | some id ↦ elim (get_task id m') [
            | none ↦ (invalid, m', submitted id ∷ [])
            | some t ↦ (
              respond_ok json_calls (object_of ((text "id", unsigned id) ∷ [])),
              m',
              submitted id ∷ broadcast (text "task_created") t ∷ [],
            )
          ]
        ]
  ]

  unfoldable pub list : Manager → Response
  list m = respond_ok json_calls (array (items_of (map task_to_json m.tasks)))

  -- The id is what the route has captured; one that is too large throws.
  unfoldable pub detail : Request → Manager → Answer
  detail req m = elim req.matches [
    | whole ∷ id ∷ rest ↦ elim (s.stoull id) [
      | none ↦ thrown
      | some n ↦ elim (get_task n m) [
        | none ↦ answered (not_found json_calls (text "Task not found") (pos 1003))
        | some t ↦ answered (respond_ok json_calls (task_to_json t))
      ]
    ]
    | _ ↦ answered (record { status = pos 400; content = [] })
  ]

  -- `sql` is how the statement of `updateTask` fares.
  unfoldable pub cancel_known :
      Statement → ℕ → Task → Manager → Response × Manager × List TaskEffect
  cancel_known sql id t m =
      if is_finished t.status
      then (respond_error json_calls (pos 1004) (text "Task already finished") (pos 200), m, [])
      else let t' = record t { cancel_flag = true; update_time = s.now } in
        (
          respond_ok json_calls null,
          (update_task sql t' m).1,
          broadcast (text "task_updated") t' ∷ [],
        )

  -- The id is what `std::stoi` makes of the digits that the route has captured, which throws beyond an
  -- int; a negative int is cast to 64 bits without a sign.
  unfoldable pub cancel_task : Statement → Text → Manager → Answer × Manager × List TaskEffect
  cancel_task sql digits m = elim (s.service.texts.stoi digits) [
    | none ↦ (thrown, m, [])
    | some i ↦
        let id : ℕ = elim i [ pos n ↦ n | negsuc n ↦ 18446744073709551615 - n ] in
        elim (get_task id m) [
          | none ↦ (
            answered (respond_error json_calls (pos 1003) (text "Task not found") (pos 200)),
            m,
            [],
          )
          | some t ↦ let (r, m', told) = cancel_known sql id t m in (answered r, m', told)
        ]
  ]

  -- A failed run is answered without the envelope of the other answers.
  unfoldable pub run_dag_now : Request → Response × List Mark
  run_dag_now req =
      elim (s.service.texts.parse req.body >>= λ (b : Json).
      run_dag s.service b (text "manual") []) [
        | none ↦ (
          respond_error json_calls (pos 500)
              (json_calls.dump (
                object_of
                  ((text "ok", boolean false) ∷ (text "error", string (s.error_of req.body)) ∷ [])))
              (pos 500),
          [],
        )
        | some (d, marks) ↦ (
          if d.success
              then respond_ok json_calls (
                  object_of (
                    (text "ok", boolean true)
                    ∷ (text "message", string d.message)
                    ∷ (text "nodes", array (nodes_json d.task_ids d.task_results))
                    ∷ []))
              else record {
                status = pos 500;
                content = json_calls.dump (
                    object_of ((text "ok", boolean false) ∷ (text "error", string d.message) ∷ []));
              },
          marks,
        )
      ]

  -- The answer, and the body and the run id of the job that the pool is given, if any.
  unfoldable pub run_dag_async : Request → Response × Option (Json × Text)
  run_dag_async req = elim (s.service.texts.parse req.body) [
    | none ↦ (invalid, none)
    | some b ↦
        let given : Text = elim (text_member (text "run_id") b) [ none ↦ [] | some r ↦ r ] in
        let run_id = if is_empty given then s.service.new_run_id else given in
        (respond_ok json_calls (object_of ((text "run_id", string run_id) ∷ [])), some (b, run_id))
  ]

  -- A text of the database that is no JSON is read as another one.
  unfoldable pub parse_json_safe : Text → Json → Json
  parse_json_safe given fallback =
      if is_empty given
      then fallback
      else elim (s.service.texts.parse given) [ none ↦ fallback | some j ↦ j ]

  unfoldable pub task_run_to_json : TaskRunRow → Json
  task_run_to_json r = object_of (
      (text "id", integer r.id)
      ∷ (text "run_id", string r.run_id)
      ∷ (text "logical_id", string r.logical_id)
      ∷ (text "task_id", string r.task_id)
      ∷ (text "name", string r.name)
      ∷ (text "exec_type", string r.exec_type)
      ∷ (text "exec_command", string r.exec_command)
      ∷ (text "exec_params", parse_json_safe r.exec_params_json (object end))
      ∷ (text "deps", parse_json_safe r.deps_json (array nil))
      ∷ (text "status", integer r.status)
      ∷ (text "exit_code", integer r.exit_code)
      ∷ (text "duration_ms", integer r.duration_ms)
      ∷ (text "message", string r.message)
      ∷ (text "stdout", string r.stdout_text)
      ∷ (text "stderr", string r.stderr_text)
      ∷ (text "attempt", integer r.attempt)
      ∷ (text "max_attempts", integer r.max_attempts)
      ∷ (text "start_ts_ms", integer r.start_ts_ms)
      ∷ (text "end_ts_ms", integer r.end_ts_ms)
      ∷ [])

  -- `query` is the one of the repository, by the run, the name and the limit.
  unfoldable pub query_task_runs : (Text → Text → ℤ → List TaskRunRow) → Request → Response
  query_task_runs query req =
      let limit = clamp (pos 1) (pos 1000) (get_int s.service.texts (text "limit") (pos 200) req) in
      respond_ok json_calls (
        object_of (
          (
            text "items",
            array (
                items_of (
                  map task_run_to_json (
                    query (param_value (text "run_id") req) (param_value (text "name") req)
                      limit))),
          )
          ∷ []))
