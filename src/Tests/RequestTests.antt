-- ===== src/Tests/RequestTests.antt =====
-- A request to make a cron job, and one to run a template.
use task_hub.Runner.Task.{to_lower, exec_type_of_name}
use task_hub.Runner.ConfigJson.{
  parse_task_config_from_req, task_of_request, params_of_member, limit_priority, priority_of_int,
}
use task_hub.Template.Renderer.{
  render_node, render_fields, param_inject, render_string, render_from, break_at_pair,
}
use task_hub.Template.Validator.{validate_and_resolve, check_params, check_param, type_matches}
use task_hub.Template.Render.{
  render, check_rendered, has_tasks, check_typed, checked_config, legal_exec_type,
}
use task_hub.Execution.Remote.{text_member}
use task_hub.Execution.Nested.{params_of_json, set_missing}
use task_hub.Handlers.Templates.Runs.Accepted.{IsBodyOf, run_template_async-IsBodyOf}
use task_hub.Handlers.Templates.Runs.{
  run_template_async, ask, template_request, render_named, prepared, requested_run_id, run_body,
  task_list_of, task_entry,
}
use task_hub.Handlers.Templates.{TemplateServer}
use task_hub.Dag.Service.{inject_run_id, array_member, object_member}
use task_hub.Scheduler.Cron.{parsed}
use task_hub.Scheduler.Jobs.{CronJob}
use task_hub.Json.{
  Json, object_of, assign_fields, set_field, string, find_field, object, end, Fields, field, Items,
  null, array,
}
use task_hub.Handlers.Http.{Response, respond_ok}
use task_hub.Handlers.Crons.{add_read}
use task_hub.Handlers.CronBodies.{CronServer, Payload, read_payload}
use task_hub.Prelude.{
  Text-Eq, ◌≡◌, List, [], some, none, text, ◌∷◌, text_eq, text_lt, refl, Option, Text, find, put,
}
use task_hub.Tests.CronTests.{clock, five_past}
use task_hub.Tests.TemplateTests.{test_calls, test_print, host_template}
use task_hub.Tests.HandlerTests.{body_request}
use task_hub.Tests.ExecutionTests.{test_texts, test_service}

abbrev job_body : Json
job_body = object_of (
    (text "name", string (text "nightly"))
    ∷ (text "spec", string (text "5 0,1 1 * *"))
    ∷ (text "task", object end)
    ∷ [])

abbrev cron_server : CronServer
cron_server = record {
  json = test_calls;
  parse = λ s. some job_body;
  get_uint = λ j. none;
  parse_spec = λ s. parsed five_past;
  localtime = clock;
  now = 0;
  print = λ n. n ∷ [];
  error_of = λ s. [];
}

abbrev made_job : Response × List (CronJob Payload)
made_job =
    add_read cron_server (body_request []) (text "nightly") (text "5 0,1 1 * *") five_past
      300000000000 (read_payload cron_server (text "SingleTask") (text "nightly") job_body) []

abbrev run_json : Json
run_json = object_of (
    (text "template_id", string (text "t"))
    ∷ (text "params", object (field (text "host") (string (text "a")) end))
    ∷ [])

abbrev run_server : TemplateServer
run_server = record {
  calls = record {
    service = record test_service { texts = record test_texts { parse = λ s. some run_json } };
    template_of = λ id. some host_template;
    print = test_print;
    what = λ j. [];
  };
  error_of = λ j. [];
  made_so_far = λ t m. null;
}

abbrev answered_run : Response × Option (Fields × Text)
answered_run = run_template_async run_server (body_request [])

abbrev job_of_run : Fields × Text
job_of_run = elim answered_run.1 [ none ↦ (end, []) | some j ↦ j ]

run_started :
    run_template_async run_server (body_request [])
    ≡ (answered_run.0, some (job_of_run.0, job_of_run.1))
unfolding put set_missing run_template_async ask template_request render_named params_of_json
    prepared requested_run_id run_body task_list_of task_entry array_member object_member
    text_member inject_run_id assign_fields set_field find_field text_eq text_lt render
    validate_and_resolve check_params check_param find type_matches render_node render_fields
    param_inject render_string render_from break_at_pair check_rendered has_tasks check_typed
    parse_task_config_from_req task_of_request checked_config legal_exec_type to_lower
    exec_type_of_name params_of_member limit_priority priority_of_int
run_started = refl

run_template_async-IsBodyOf_example :
    (entries : Items) × IsBodyOf job_of_run.1 job_of_run.0 entries
    × (answered_run.0
        ≡ respond_ok test_calls (
            object_of
              ((text "run_id", string job_of_run.1) ∷ (text "task_ids", array entries) ∷ [])))
run_template_async-IsBodyOf_example =
    run_template_async-IsBodyOf run_server (body_request []) answered_run.0 job_of_run.0
      job_of_run.1 run_started
