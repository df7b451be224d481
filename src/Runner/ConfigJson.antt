-- ===== src/Runner/ConfigJson.antt =====
-- server/src/runner/task_config.h: the JSON request that carries a task to a worker, and how it is read.
use task_hub.Prelude.{
  ℕ, ℤ, pos, negsuc, eqb_ℤ, if◌then◌else◌, List, [], ◌∷◌, Text, text, Option, some, none, true,
  ◌>>=◌,
}
use task_hub.Json.{
  string, Json, Fields, end, field, set_field, object, boolean, integer, member, JsonCalls,
  value_with, object_of,
}
use task_hub.Runner.Task.{
  TaskConfig, TaskPriority, low, normal, high, critical, other_priority, task_id, default_config,
  exec_type_name, exec_type_of_name,
}
pub mod RoundTrip

unfoldable pub to_priority_int : TaskPriority → ℤ
to_priority_int low = negsuc 0
to_priority_int normal = pos 0
to_priority_int high = pos 1
to_priority_int critical = pos 2
to_priority_int (other_priority i) = i

-- The cast back.
unfoldable pub priority_of_int : ℤ → TaskPriority
priority_of_int i =
    if eqb_ℤ i (negsuc 0)
    then low
    else if eqb_ℤ i (pos 0)
    then normal
    else if eqb_ℤ i (pos 1)
    then high
    else if eqb_ℤ i (pos 2)
    then critical
    else other_priority i

-- No request is above high.
unfoldable pub limit_priority : TaskPriority → TaskPriority
limit_priority critical = high
limit_priority p = p

-- The keys of an unordered_map are distinct, so that the order of the assignments does not count.
unfoldable pub params_to_fields : List (Text × Text) → Fields
params_to_fields [] = end
params_to_fields ((k, v) ∷ ps) = set_field k (string v) (params_to_fields ps)

unfoldable pub build_request_json : TaskConfig → Json
build_request_json cfg = object_of (
    (
      text "task",
      object_of (
          (text "id", string cfg.id.value)
          ∷ (text "name", string cfg.name)
          ∷ (text "exec_type", string (exec_type_name cfg.exec_type))
          ∷ (text "exec_command", string cfg.exec_command)
          ∷ (text "exec_params", object (params_to_fields cfg.exec_params))
          ∷ (text "timeout_ms", integer cfg.timeout_ms)
          ∷ (text "retry_count", integer cfg.retry_count)
          ∷ (text "retry_delay_ms", integer cfg.retry_delay_ms)
          ∷ (text "retry_exp_backoff", boolean cfg.retry_use_exponential_backoff)
          ∷ (text "priority", integer (to_priority_int cfg.priority))
          ∷ (text "queue", string cfg.queue)
          ∷ (text "capture_output", boolean cfg.capture_output)
          ∷ (text "metadata", object (params_to_fields cfg.metadata))
          ∷ []),
    )
    ∷ [])

-- A request holds its task in a member of its own, or is the task.
unfoldable pub task_of_request : Json → Json
task_of_request j = elim (member (text "task") j) [ some (object fs) ↦ object fs | _ ↦ j ]

module _ (c : JsonCalls) where
  unfoldable pub text_of_param : Json → Text
  text_of_param (string s) = s
  text_of_param v = c.dump v

  unfoldable pub params_of_fields : Fields → List (Text × Text)
  params_of_fields end = []
  params_of_fields (field k v fs) = (k, text_of_param v) ∷ params_of_fields fs

  unfoldable pub params_of_member : Text → Json → List (Text × Text)
  params_of_member k j = elim (member k j) [ some (object fs) ↦ params_of_fields fs | _ ↦ [] ]

  -- `none` is the exception of a conversion.
  unfoldable pub parse_task_config_from_req : Json → Option TaskConfig
  parse_task_config_from_req req = do
    let jt = task_of_request req
    id ← value_with c.get_text (text "id") [] jt
    name ← value_with c.get_text (text "name") [] jt
    exec_type ← value_with c.get_text (text "exec_type") (text "Local") jt
    exec_command ← value_with c.get_text (text "exec_command") [] jt
    queue ← value_with c.get_text (text "queue") [] jt
    capture_output ← value_with c.get_bool (text "capture_output") true jt
    timeout_ms ← value_with c.get_long (text "timeout_ms") (pos 0) jt
    retry_count ← value_with c.get_int (text "retry_count") (pos 0) jt
    retry_delay_ms ← value_with c.get_long (text "retry_delay_ms") (pos 1000) jt
    backoff ← value_with c.get_bool (text "retry_exp_backoff") true jt
    priority ← value_with c.get_int (text "priority") (pos 0) jt
    some (record {
      id = task_id id [];
      name = name;
      description = default_config.description;
      exec_type = exec_type_of_name exec_type;
      exec_command = exec_command;
      exec_params = params_of_member (text "exec_params") jt;
      timeout_ms = timeout_ms;
      retry_count = retry_count;
      retry_delay_ms = retry_delay_ms;
      retry_use_exponential_backoff = backoff;
      cancelable = default_config.cancelable;
      priority = limit_priority (priority_of_int priority);
      queue = queue;
      metadata = params_of_member (text "metadata") jt;
      capture_output = capture_output;
    })
