-- ===== src/Handlers/Logs.antt =====
-- server/src/handlers/log_handler.cpp: the log of a task, page by page.
use task_hub.Execution.Context.{TextCalls}
use task_hub.Handlers.Http.{Request, Response, param_value, clamp, respond_ok, bad_request}
use task_hub.Json.{Json, JsonCalls, array, integer, unsigned, string, object, object_of, items_of}
use task_hub.Log.Buffer.{LogRecord, Bufs, get}
use task_hub.Runner.ConfigJson.{params_to_fields}
use task_hub.Runner.Task.{task_id}
use task_hub.Ws.Hub.{level_int, stream_int}
use task_hub.Prelude.{
  ℕ, ℤ, pos, pos_part, Text, text, Text-Eq, Option, none, some, List, [], ◌∷◌, ◌++◌, find, map,
  is_empty, if◌then◌else◌,
}

abbrev given : Text → Text → List (Text × Json)
given k s = if is_empty s then [] else (k, string s) ∷ []

-- The time of a record is the clock's when it was stored, in milliseconds.
unfoldable pub log_record_to_json : (LogRecord → ℤ) → LogRecord → Json
log_record_to_json ts_ms r = object_of (
    (text "seq", unsigned r.seq)
      ∷ (text "task_id", string r.task_id.value)
      ∷ given (text "run_id") r.task_id.run_id
    ++ given (text "dag_run_id") r.dag_run_id
    ++ given (text "cron_job_id") r.cron_job_id
    ++ given (text "worker_id") r.worker_id
    ++ (text "level", integer (pos (level_int r.level)))
      ∷ (text "stream", integer (pos (stream_int r.stream)))
      ∷ (text "message", string r.message)
      ∷ (text "ts_ms", integer (ts_ms r))
      ∷ (text "duration_ms", integer r.duration_ms)
      ∷ (text "attempt", integer r.attempt)
      ∷ (text "fields", object (params_to_fields r.fields))
      ∷ [])

-- A number of the request, or the default where it is missing, empty or not a number.
unfoldable pub parse_or {ℓ} : {A : Type ℓ} → (Text → Option A) → Text → A → Request → A
parse_or read k default req = elim (find k req.params) [
  | none ↦ default
  | some s ↦ if is_empty s then default else elim (read s) [ none ↦ default | some n ↦ n ]
]

module _ (c : JsonCalls) (t : TextCalls) (stoull : Text → Option ℕ) (ts_ms : LogRecord → ℤ) where
  unfoldable pub query_logs : Request → Bufs → Response
  query_logs req bufs = elim (find (text "task_id") req.params) [
    | none ↦ bad_request c (text "missing task_id") (pos 400)
    | some id ↦
        let from = parse_or stoull (text "from") 1 req in
        let limit = clamp (pos 1) (pos 2000) (parse_or t.stoi (text "limit") (pos 200) req) in
        let (next, records) =
          get (task_id id (param_value (text "run_id") req)) from (pos_part limit) bufs in
        respond_ok c (
          object_of (
            (text "task_id", string id)
            ∷ (text "from", unsigned from)
            ∷ (text "limit", integer limit)
            ∷ (text "next_from", unsigned next)
            ∷ (text "records", array (items_of (map (log_record_to_json ts_ms) records)))
            ∷ []))
  ]
