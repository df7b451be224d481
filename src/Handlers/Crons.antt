-- ===== src/Handlers/Crons.antt =====
-- server/src/handlers/cron_handler.cpp and server/src/scheduler/cron_job.cpp: jobs are listed, made and
-- removed.
pub mod Added
use task_hub.Dag.Builder.{DagTaskSpec}
use task_hub.Dag.Service.{array_member, object_member}
use task_hub.Dag.Types.{DagConfig, fail_fast, skip_downstream}
use task_hub.Handlers.Http.{Request, Response, respond_ok, respond_error}
use task_hub.Json.{
  Json, Items, nil, cons, Fields, end, JsonCalls, array, boolean, integer, null, string, object,
  object_of, member, value_with, is_number_integer, items_of, field, is_object,
}
use task_hub.Runner.ConfigJson.{priority_of_int}
use task_hub.Runner.Task.{
  TaskConfig, TaskPriority, TaskId, low, normal, high, critical, task_id, default_config,
  exec_type_name, exec_type_of_name, to_lower,
}
use task_hub.Scheduler.Cron.{CronExpr, Tm, Parsed, parsed, rejected, undefined}
use task_hub.Scheduler.Jobs.{CronJob, add_job, remove_job, next_after}
use task_hub.Prelude.{
  ℕ, pos, negsuc, Text, text, text_eq, ◌++◌, ◌/◌, ◌||◌, true, Option, none, some, List, [], ◌∷◌,
  is_empty, map, ltb_ℤ, if◌then◌else◌, ◌>>=◌, Text-Eq, not,
}
use task_hub.Handlers.CronBodies.{
  Payload, single_task, dag_job, template_job, CronServer, Read, refuses, reads, read_payload,
}

abbrev pub target_name : Payload → Text
target_name (single_task cfg) = text "SingleTask"
target_name (dag_job specs cfg) = text "Dag"
target_name (template_job id params) = text "Template"

abbrev summary_of : Payload → Json
summary_of (single_task cfg) = object_of (
    (text "exec_type", string (exec_type_name cfg.exec_type))
    ∷ (text "exec_command", string cfg.exec_command)
    ∷ [])
summary_of (dag_job specs cfg) = object end
summary_of (template_job id params) = object_of ((text "template_id", string id) ∷ [])

-- The next time in seconds.
unfoldable pub job_to_json : CronJob Payload → Json
job_to_json job = object_of (
    (text "id", string job.id)
    ∷ (text "name", string job.name)
    ∷ (text "spec", string job.spec)
    ∷ (text "enabled", boolean job.enabled)
    ∷ (text "target_type", string (target_name job.payload))
    ∷ (text "next_time_epoch", integer (pos (job.next_time / 1000000000)))
    ∷ (text "summary", summary_of job.payload)
    ∷ [])

module _ (s : CronServer) where
  -- The name, the schedule and the target.
  unfoldable pub job_request : Json → Option (Text × Text × Text)
  job_request b = do
    name ← value_with s.json.get_text (text "name") [] b
    spec ← value_with s.json.get_text (text "spec") [] b
    target ← value_with s.json.get_text (text "target_type") (text "SingleTask") b
    some (name, spec, target)

  abbrev refuse : Text → Response
  refuse message = respond_error s.json (pos 400) message (pos 400)

  abbrev exception : Request → Response
  exception req = refuse (text "invalid json: " ++ s.error_of req.body)

  -- The id is made of the time in milliseconds.
  abbrev pub job_id : Text
  job_id = text "job_" ++ s.print (s.now / 1000000)

  unfoldable pub add_read :
      Request
      → Text
      → Text
      → CronExpr
      → ℕ
      → Option Read
      → List (CronJob Payload)
      → Response × List (CronJob Payload)
  add_read req name spec e next none jobs = (exception req, jobs)
  add_read req name spec e next (some (refuses message)) jobs = (refuse message, jobs)
  add_read req name spec e next (some (reads payload)) jobs =
      let (id, jobs') =
        add_job s.print
          (record {
            id = job_id;
            name = name;
            spec = spec;
            payload = payload;
            cron_expr = e;
            next_time = next;
            enabled = true;
          })
          jobs in
      (
        respond_ok s.json
            (object_of ((text "ok", boolean true) ∷ (text "job_id", string job_id) ∷ [])),
        jobs',
      )

  -- `none` is what the language leaves undefined, in the parser of schedules.
  unfoldable pub create_job :
      Request → List (CronJob Payload) → Option (Response × List (CronJob Payload))
  create_job req jobs = elim (s.parse req.body) [
    | none ↦ some (exception req, jobs)
    | some b ↦ elim (job_request b) [
      | none ↦ some (exception req, jobs)
      | some (name, spec, target) ↦
          if is_empty name || is_empty spec
          then some (refuse (text "name/spec is required"), jobs)
          else elim (s.parse_spec spec) [
            | undefined ↦ none
            | rejected ↦ some (exception req, jobs)
            | parsed e ↦ elim (next_after s.localtime e s.now) [
              | none ↦ some (exception req, jobs)
              | some next ↦ some (add_read req name spec e next (read_payload s target name b) jobs)
            ]
          ]
    ]
  ]

  unfoldable pub list_jobs : List (CronJob Payload) → Response
  list_jobs jobs = respond_ok s.json (
      object_of
        ((text "ok", boolean true) ∷ (text "jobs", array (items_of (map job_to_json jobs))) ∷ []))

  -- An id that no job has is answered in the same way.
  unfoldable pub delete_job : Request → List (CronJob Payload) → Response × List (CronJob Payload)
  delete_job req jobs = elim req.matches [
    | whole ∷ id ∷ rest ↦
        (respond_ok s.json (object_of ((text "ok", boolean true) ∷ [])), remove_job id jobs)
    | _ ↦ (refuse (text "missing job id"), jobs)
  ]
