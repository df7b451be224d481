-- ===== src/Tests/ExecutionTests.antt =====
-- A dispatch to one worker, and a DAG within a DAG.
use mathlib.Core.List.Memᴰ
use task_hub.Runner.ResultJson.{status_to_int}
use task_hub.Runner.ConfigJson.{
  parse_task_config_from_req, task_of_request, params_of_member, limit_priority, priority_of_int,
}
use task_hub.Execution.Remote.Outcome.{Acked, execute-Acked}
use task_hub.Execution.Remote.Classify.{IsAck, answer_of, dispatch_once-IsAck}
use task_hub.Execution.Nested.Depth.{nesting_limit, Starts, started, by_dag, itself}
use task_hub.Execution.Remote.{
  Output, read_dispatch_max_retries, response, build_dispatch_ack_result, pre_dispatch_abort,
  text_member, ack_message, ack_metadata, push_lines_to_buffer, push_lines, lines_from,
  base_remote_fields,
}
use task_hub.Worker.Strategy.{least_load, pick_worker_for_queue}
use task_hub.Execution.DagBody.{
  extract_dag_body, failed, body, structured_body, flat_config, set_text,
}
use task_hub.Worker.Selector.{
  WorkerInfo, Workers, least_load_pick, best_candidate, best_of, is_better, candidates_for,
  collect_candidates, is_candidate, is_alive, is_full, is_cooling_down, queue_match, contains_text,
}
use task_hub.Runner.Task.{
  TaskConfig, TaskResult, is_ok, default_config, default_result, task_id, exec_type_of_name,
  exec_type_name,
}
use task_hub.Json.{
  Fields, IsInt32, object, end, array, cons, object_of, string, nil, boolean, assign_fields,
  set_field, find_field,
}
use task_hub.Execution.Remote.Retries.{
  Dispatched, Meeting, execute, attempt_once, dispatch_attempts, queue_of,
}
use task_hub.Execution.Remote.Dispatch.{
  DispatchAttemptResult, dispatch_once, Call, answered, acknowledged, has_passed, payload_of,
  read_timeout,
}
use task_hub.Execution.Nested.{Readings, TemplateCalls, refused_before}
use task_hub.Execution.Context.{ExecutionContext, TextCalls, is_timeout}
use task_hub.Dag.Service.Nesting.{IsAt, ReadsNumbers, nesting_depth_of}
use task_hub.Dag.Service.{
  ServiceCalls, specs_of_body, specs_of_items, spec_of_json, body_with_depth, parent_depth,
  tasks_of_body, array_member, deps_of_task, inject_run_id,
}
use task_hub.Dag.Builder.{DagTaskSpec}
use task_hub.Prelude.{
  Text-Eq, find, ℕ, ℤ, ◌≡◌, ◌≤◌, List, false, none, pos, some, suc, text, text_eq, true, [], negsuc,
  ◌+◌, ◌↔◌, ◌∷◌, if◌then◌else◌, refl, ◌⊎◌, ◌==◌, text_lt, put,
}
use task_hub.Tests.TemplateTests.{test_calls, test_calls-ReadsBack}

-- A library that writes a number as one or two codes.
abbrev pub test_texts : TextCalls
test_texts = record {
  to_string = λ i. elim i [ pos n ↦ n ∷ [] | negsuc n ↦ 0 ∷ n ∷ [] ];
  stoi =
      λ s. elim s [ [] ↦ none | x ∷ xs ↦ elim xs [ [] ↦ some (pos x) | y ∷ ys ↦ some (negsuc y) ] ];
  parse = λ s. elim s [
    | [] ↦ none
    | x ∷ xs ↦
        if x == b'['
        then some (array (cons (object_of ((text "id", string (text "b")) ∷ [])) nil))
        else some (object_of ((text "ok", boolean true) ∷ []))
  ];
  parse_error = λ s. [];
}

abbrev dag_config : TaskConfig
dag_config = record default_config {
  id = task_id (text "a") (text "r");
  exec_params = (text "tasks", text "[") ∷ (text "_nesting_depth", 9 ∷ []) ∷ [];
}

abbrev dag_context : ExecutionContext
dag_context = record { config = dag_config; deadline = some 900; nesting_depth = pos 9 }

abbrev dag_payload : Fields
dag_payload = elim (extract_dag_body test_texts dag_config) [ failed e ↦ end | body fs ↦ fs ]

abbrev call : Call
call = record {
  before_at = 210;
  start_at = 220;
  end_at = 230;
  after_at = 240;
  is_canceled = false;
  reply = λ w limit sent. response (pos 200) (text "{}");
}

abbrev meeting : Meeting
meeting = record {
  is_canceled = false;
  checked_at = 200;
  others = λ ws. ws;
  picked_at = 205;
  call = call;
  marked_at = 250;
}

abbrev pub only_worker : WorkerInfo
only_worker = record {
  id = text "x";
  host = text "localhost";
  port = pos 8083;
  queues = [];
  labels = [];
  running_tasks = pos 0;
  last_heartbeat = 100;
  max_running_tasks = pos 4;
  dispatch_cooldown_until = 0;
}

abbrev pub one_worker : Workers
one_worker = (text "x", only_worker) ∷ []

dispatching : Unit {0}
unfolding dispatch_once answered acknowledged build_dispatch_ack_result payload_of text_member
    ack_message ack_metadata read_timeout inject_run_id push_lines_to_buffer push_lines lines_from
    assign_fields set_field find_field text_eq text_lt find put extract_dag_body structured_body
    flat_config set_text exec_type_name status_to_int base_remote_fields
dispatching = tt

abbrev done : DispatchAttemptResult × List Output
done =
    elim (dispatch_once test_texts test_calls dag_context (text "default") only_worker call
      dag_payload) [
        | none ↦ (record { result = default_result; retryable = false; retry_reason = [] }, [])
        | some d ↦ d
      ]

dispatched :
    dispatch_once test_texts test_calls dag_context (text "default") only_worker call dag_payload
    ≡ some (done.0, done.1)
unfolding dispatching
dispatched = refl

dispatch_once-IsAck_example : (is_ok done.0.result.status ≡ true) ↔ (
    (has_passed dag_context.deadline call.before_at ≡ false)
    × IsAck test_texts test_calls
        (answer_of test_texts test_calls dag_context (text "default") only_worker call dag_payload))
dispatch_once-IsAck_example =
    dispatch_once-IsAck test_texts test_calls dag_context (text "default") only_worker call
      dag_payload done.0 done.1 dispatched

abbrev world : ℕ → Meeting
world n = meeting

abbrev ended : Dispatched
ended = execute test_texts test_calls least_load dag_context world (pos 2) false 190 one_worker []

abbrev ended_result : TaskResult
ended_result = elim ended.result [ none ↦ default_result | some r ↦ r ]

executing : Unit {0}
unfolding dispatching execute attempt_once dispatch_attempts pre_dispatch_abort is_timeout
    read_dispatch_max_retries queue_of pick_worker_for_queue least_load_pick best_candidate best_of
    is_better candidates_for collect_candidates is_candidate is_alive is_full is_cooling_down
    queue_match contains_text
executing = tt

ended_well : ended.result ≡ some ended_result
unfolding executing
ended_well = refl

ended_ok : is_ok ended_result.status ≡ true
unfolding executing
ended_ok = refl

execute-Acked_example :
    (ended.made ≤ suc (read_dispatch_max_retries (pos 2)))
    × ((payload : Fields) × (extract_dag_body test_texts dag_config ≡ body payload)
        × Acked test_texts test_calls least_load dag_context world payload ended.made ended_result)
execute-Acked_example =
    execute-Acked test_texts test_calls least_load dag_context world (pos 2) false 190 one_worker []
      ended_result ended_well ended_ok

abbrev pub test_service : ServiceCalls
test_service = record {
  texts = test_texts;
  json = test_calls;
  get_uint = λ j. none;
  task_error = λ js. [];
  error_text = λ e. [];
  new_run_id = text "new";
  execute = λ cfg g. default_result;
}

reads : (i : ℤ) → IsInt32 i → test_texts.stoi (test_texts.to_string i) ≡ some i
reads (pos n) h = refl
reads (negsuc n) h = refl

test_service-ReadsNumbers : ReadsNumbers test_service
test_service-ReadsNumbers = record { reads_json = test_calls-ReadsBack; reads_stoi = reads }

abbrev pub test_template_calls : TemplateCalls
test_template_calls = record {
  service = test_service;
  template_of = λ id. none;
  print = record { of_long = λ i. []; of_float = λ n. []; dump = λ j. [] };
  what = λ j. [];
}

abbrev readings : Readings
readings = record { is_canceled = false; checked_at = 200; start_at = 210; end_at = 220 }

abbrev child_spec : DagTaskSpec
child_spec =
    elim (specs_of_body test_service (text "r")
      (object (body_with_depth test_service dag_config dag_payload))) [
        | none ↦ record { id = task_id [] []; deps = []; runner_cfg = default_config }
        | some specs ↦ elim specs [
          | [] ↦ record { id = task_id [] []; deps = []; runner_cfg = default_config }
          | s ∷ ss ↦ s
        ]
      ]

dag_config-IsAt : IsAt test_service (pos 9) dag_config
unfolding find text_eq
dag_config-IsAt = (9 ∷ [], refl, refl)

nesting : Unit {0}
unfolding dispatching specs_of_body specs_of_items spec_of_json parent_depth body_with_depth
    tasks_of_body array_member deps_of_task refused_before parse_task_config_from_req
    task_of_request params_of_member limit_priority priority_of_int nesting_depth_of
    exec_type_of_name is_timeout
nesting = tt

started_one : Starts test_template_calls dag_config (child_spec ∷ [])
unfolding nesting
started_one = by_dag none readings (text "r") dag_payload (child_spec ∷ []) refl refl refl

nesting_limit_example :
    IsAt test_service (pos (9 + 1)) child_spec.runner_cfg × (◌≡◌ {A = ℕ} 1 0 ⊎ (9 + 1 ≤ 10))
nesting_limit_example =
    nesting_limit test_template_calls test_service-ReadsNumbers 9 dag_config 1 child_spec.runner_cfg
      dag_config-IsAt (started (child_spec ∷ []) child_spec itself started_one (Memᴰ.head refl))
