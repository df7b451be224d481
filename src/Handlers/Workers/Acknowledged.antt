-- ===== src/Handlers/Workers/Acknowledged.antt =====
-- server/src/handlers/worker_handler.cpp and execution/remote_strategy.cpp: the two ends of a
-- dispatch, the server that sends a DAG and the worker that takes it.
use task_hub.Execution.Remote.{response, inject_run_id, text_member}
use task_hub.Execution.Remote.Classify.{IsAck}
use task_hub.Execution.Remote.Dispatch.{payload_of}
use task_hub.Handlers.Http.{Request, Response, answered, respond}
use task_hub.Handlers.Workers.{HandlerCalls, worker_execute, execute_answer}
use task_hub.Json.{
  Json, Fields, ReadsBack, string, object, integer, object_of, assign_fields, set_field, find_field,
  find_field-set_field, value_with,
}
use task_hub.Prelude.{
  pos, Text, text, text_eq, text_lt, =?_refl, none, some, [], ◌∷◌, ◌≡◌, ◌≢◌, inl, inr, Option-cases,
  arith, refl, Text-Eq,
}

-- The body of a success whose data are the answer of an execution.
abbrev pub ack_body : Text → Json
ack_body run_id = object_of (
    (text "code", integer (pos 0))
    ∷ (text "message", string (text "ok"))
    ∷ (text "data", execute_answer run_id)
    ∷ [])

ack_payload : (run_id : Text) → payload_of (ack_body run_id) ≡ execute_answer run_id
unfolding payload_of assign_fields set_field find_field text_eq text_lt
ack_payload run_id = refl

ack_run_id : (run_id : Text) → text_member (text "run_id") (execute_answer run_id) ≡ some run_id
unfolding text_member assign_fields set_field find_field text_eq text_lt
ack_run_id run_id = refl

-- A worker that starts a job for a request acknowledges it: if its answer is read back as it was
-- written, the server that sent the request takes it for a success.
pub worker_execute-IsAck :
    (h : HandlerCalls) (req : Request) (r : Response) (dag : Json) (run_id : Text)
    → worker_execute h req ≡ (answered r, some (dag, run_id))
    → h.texts.parse (h.json.dump (ack_body run_id)) ≡ some (ack_body run_id)
    → IsAck h.texts h.json (response r.status r.content)
unfolding worker_execute respond
worker_execute-IsAck h req r dag run_id e back = elim (Option-cases (h.texts.parse req.body)) [
  | inl n ↦ ground (arith, n)
  | inr (body, n) ↦ elim (Option-cases (value_with h.json.get_text (text "run_id") [] body)) [
    | inl m ↦ ground (arith, n, m)
    | inr (given, m) ↦
        let facts : (r.status ≡ pos 200) × (r.content ≡ h.json.dump (ack_body run_id)) =
          ground (arith, n, m) in
        record {
          status = r.status;
          reply_body = r.content;
          json = ack_body run_id;
          answer = refl;
          good = ground (arith, facts.0);
          parsed = rw facts.1 back;
          accepted = inr (run_id, rw (ack_payload run_id) (ack_run_id run_id));
        }
  ]
]

-- The run that a worker starts for a task of a run bears the run id of the task, if the DAG of the
-- task has none of its own, and the payload is read back as it was written.
pub worker_execute-inject_run_id :
    (h : HandlerCalls) (back : ReadsBack h.json) (req : Request) (run_id : Text) (payload : Fields)
    → run_id ≢ []
    → find_field (text "run_id") payload ≡ none
    → h.texts.parse req.body ≡ some (object (inject_run_id run_id payload))
    → (worker_execute h req).1 ≡ some (object (inject_run_id run_id payload), run_id)
unfolding worker_execute inject_run_id
worker_execute-inject_run_id h back req run_id payload full own e =
    let kept = find_field-set_field (text "run_id") (text "run_id") (string run_id) payload in
    ground (arith, own, e, kept, =?_refl (text "run_id"), back.reads_text run_id)
