-- ===== src/Handlers/Workers.antt =====
-- server/src/handlers/worker_handler.cpp: registration and heartbeats of workers, their list, and
-- the execution of a DAG that another server sends. Each handler reads the clock once.
use task_hub.Execution.Context.{TextCalls}
use task_hub.Handlers.Http.{
  Request, Response, Answer, answered, thrown, respond_ok, respond_error, bad_request,
}
use task_hub.Json.{
  Json, Items, nil, cons, Fields, JsonCalls, array, boolean, integer, null, string, object,
  object_of, member, value_with,
}
use task_hub.Worker.Registry.{upsert_worker, touch_heartbeat, list_workers}
use task_hub.Worker.Selector.{WorkerInfo, Workers, is_alive, is_full}
use task_hub.Prelude.{
  ℕ, ℤ, pos, Text, text, ◌++◌, ◌-◌, ◌/◌, ◌||◌, Bool, true, false, Option, none, some, List, [], ◌∷◌,
  is_empty, leb_ℤ, if◌then◌else◌, keep, ◌>>=◌, map,
}
pub mod Proxy
pub mod Acknowledged

unfoldable pub json_of_texts : List Text → Items
json_of_texts [] = nil
json_of_texts (s ∷ ss) = cons (string s) (json_of_texts ss)

unfoldable pub worker_to_json : ℕ → WorkerInfo → Json
worker_to_json now w = object_of (
    (text "id", string w.id)
    ∷ (text "host", string w.host)
    ∷ (text "port", integer w.port)
    ∷ (text "running_tasks", integer w.running_tasks)
    ∷ (text "max_running_tasks", integer w.max_running_tasks)
    ∷ (text "full", boolean (is_full w))
    ∷ (text "alive", boolean (is_alive now w))
    ∷ (text "last_seen_ms_ago", integer (pos ((now - w.last_heartbeat) / 1000000)))
    ∷ (text "queues", array (json_of_texts w.queues))
    ∷ (text "labels", array (json_of_texts w.labels))
    ∷ [])

unfoldable pub workers_to_json : ℕ → List WorkerInfo → Items
workers_to_json now [] = nil
workers_to_json now (w ∷ ws) = cons (worker_to_json now w) (workers_to_json now ws)

-- The texts of an array; any other item is passed over.
unfoldable pub texts_of_items : Items → List Text
texts_of_items nil = []
texts_of_items (cons (string s) js) = s ∷ texts_of_items js
texts_of_items (cons j js) = texts_of_items js

unfoldable pub texts_of_member : Text → Json → List Text
texts_of_member k j = elim (member k j) [ some (array js) ↦ texts_of_items js | _ ↦ [] ]

abbrev pub execute_answer : Text → Json
execute_answer run_id = object_of ((text "ok", boolean true) ∷ (text "run_id", string run_id) ∷ [])

-- What the handlers use besides: the text of the exception that the conversions throw for a body,
-- and a new run id, which is made of the time and of random letters.
pub record HandlerCalls : Type 0 where
  pub texts : TextCalls
  pub json : JsonCalls
  pub conversion_error : Json → Text
  pub new_run_id : Text

module _ (h : HandlerCalls) where
  -- `none` is an exception.
  unfoldable pub worker_of_json : ℕ → Json → Option WorkerInfo
  worker_of_json now j = do
    id ← value_with h.json.get_text (text "id") [] j
    host ← value_with h.json.get_text (text "host") (text "127.0.0.1") j
    port ← value_with h.json.get_int (text "port") (pos 0) j
    running ← value_with h.json.get_int (text "running_tasks") (pos 0) j
    most ← value_with h.json.get_int (text "max_running_tasks") (pos 1) j
    some (record {
      id = id;
      host = host;
      port = port;
      queues = texts_of_member (text "queues") j;
      labels = texts_of_member (text "labels") j;
      running_tasks = running;
      last_heartbeat = now;
      max_running_tasks = if leb_ℤ most (pos 0) then pos 1 else most;
      dispatch_cooldown_until = 0;
    })

  unfoldable pub workers_register : ℕ → Request → Workers → Response × Workers
  workers_register now req ws = elim (h.texts.parse req.body) [
    | some (object fs) ↦ elim (worker_of_json now (object fs)) [
      | none ↦ (
        respond_error h.json (pos 500) (text "internal error: " ++ h.conversion_error (object fs))
            (pos 500),
        ws,
      )
      | some info ↦
          if is_empty info.id || leb_ℤ info.port (pos 0)
          then (
            respond_error h.json (pos 400) (text "missing required fields: id/port") (pos 400),
            ws,
          )
          else (
            respond_ok h.json (object_of ((text "ok", boolean true) ∷ [])),
            upsert_worker now info ws,
          )
    ]
    | _ ↦ (respond_error h.json (pos 400) (text "invalid json") (pos 400), ws)
  ]

  -- The id and the load of a heartbeat. `none` is an exception.
  unfoldable pub heartbeat_of_json : Json → Option (Text × ℤ)
  heartbeat_of_json j = do
    id ← value_with h.json.get_text (text "id") [] j
    running ← value_with h.json.get_int (text "running_tasks") (pos 0) j
    some (id, running)

  unfoldable pub workers_heartbeat : ℕ → Request → Workers → Response × Workers
  workers_heartbeat now req ws = elim (h.texts.parse req.body >>= heartbeat_of_json) [
    | none ↦ (respond_error h.json (pos 500) (text "internal error") (pos 500), ws)
    | some (id, running) ↦
        if is_empty id
        then (respond_error h.json (pos 400) (text "missing worker id") (pos 400), ws)
        else let (known, ws') = touch_heartbeat now id running ws in
          (
            if known
                then respond_ok h.json null
                else respond_error h.json (pos 404) (text "worker not found") (pos 404),
            ws',
          )
  ]

  abbrev list_answer : ℕ → List WorkerInfo → Response
  list_answer now ws = respond_ok h.json (
      object_of ((text "ok", boolean true) ∷ (text "workers", array (workers_to_json now ws)) ∷ []))

  unfoldable pub workers_list : ℕ → Workers → Response
  workers_list now ws = list_answer now (list_workers ws)

  unfoldable pub workers_connected : ℕ → Workers → Response
  workers_connected now ws = list_answer now (keep (is_alive now) (list_workers ws))

  -- The answer, and the body and the run id of the job that the DAG thread pool is given, if any. A
  -- run id that is not a text throws.
  unfoldable pub worker_execute : Request → Answer × Option (Json × Text)
  worker_execute req = elim (h.texts.parse req.body) [
    | none ↦ (answered (bad_request h.json (text "Invalid JSON") (pos 1002)), none)
    | some body ↦ elim (value_with h.json.get_text (text "run_id") [] body) [
      | none ↦ (thrown, none)
      | some given ↦
          let run_id = if is_empty given then h.new_run_id else given in
          (answered (respond_ok h.json (execute_answer run_id)), some (body, run_id))
    ]
  ]
