-- ===== src/Scheduler/Dispatch.antt =====
-- server/src/scheduler/cron_scheduler.cpp: what a job that is due starts.
use task_hub.Template.Types.{ParamMap}
use task_hub.Dag.Builder.{DagTaskSpec}
use task_hub.Dag.Service.{Mark, persist_run_and_tasks, inject_run_id, run_dag}
use task_hub.Dag.Types.{DagConfig, FailPolicy, fail_fast, skip_downstream}
use task_hub.Execution.Nested.{TemplateCalls, params_of_json, set_missing, config_of}
use task_hub.Handlers.CronBodies.{Payload, single_task, dag_job, template_job}
use task_hub.Json.{
  Json, Fields, end, array, object, string, unsigned, object_of, set_field, assign_fields, items_of,
  value_with,
}
use task_hub.Runner.ConfigJson.{build_request_json, task_of_request}
use task_hub.Runner.Task.{TaskConfig, TaskResult, TaskId, task_id, is_ok}
use task_hub.Scheduler.Jobs.{CronJob}
use task_hub.Template.Render.{render}
use task_hub.Template.Renderer.{done, failed}
use task_hub.Prelude.{
  Text, text, ◌++◌, Bool, false, Option, none, some, List, [], ◌∷◌, map, ◌>>=◌, Text-Eq,
}

abbrev pub policy_name : FailPolicy → Text
policy_name fail_fast = text "FailFast"
policy_name skip_downstream = text "SkipDownstream"

-- The task of a description, with its id and its dependencies.
unfoldable pub task_json : DagTaskSpec → Json
task_json spec = elim (task_of_request (build_request_json spec.runner_cfg)) [
  | object fs ↦ object (
      set_field (text "deps") (array (items_of (map (λ (d : TaskId). string d.value) spec.deps)))
        (set_field (text "id") (string spec.id.value) fs))
  | j ↦ j
]

unfoldable pub dag_body : Text → Text → List DagTaskSpec → DagConfig → Fields
dag_body job_id name specs cfg =
    assign_fields
      ((text "name", string name)
        ∷ (
          text "config",
          object_of (
              (text "fail_policy", string (policy_name cfg.fail_policy))
              ∷ (text "max_parallel", unsigned cfg.max_parallel)
              ∷ (text "cron_job_id", string job_id)
              ∷ (text "name", string name)
              ∷ []),
        )
        ∷ (text "tasks", array (items_of (map task_json specs)))
        ∷ [])
      end

-- Whether it has succeeded, and what the database is told. `none` is an exception, here and below.
abbrev Dispatched : Type 0
Dispatched = Option (Bool × List Mark)

-- The task runner is a parameter.
module _ (c : TemplateCalls) (run : TaskConfig → TaskResult) where
  -- The run is told of twice: here, and by the service.
  unfoldable pub run_body : Text → Fields → Dispatched
  run_body run_id b = do
    b' ← inject_run_id run_id b
    ended ← run_dag c.service (object b') (text "manual") run_id
    some (ended.0.success, persist_run_and_tasks run_id (object b') (text "cron") ++ ended.1)

  unfoldable pub template_body : Text → Text → Text → Fields → Option Fields
  template_body job_id id name fs = do
    let config =
        set_field (text "cron_job_id") (string job_id)
          (set_field (text "template_id") (string id) (config_of fs))
    let named =
        set_missing (text "name") (string name) (set_field (text "config") (object config) fs)
    title ← value_with c.service.json.get_text (text "name") name (object named)
    some (set_field (text "config") (object (set_field (text "name") (string title) config)) named)

  unfoldable pub dispatch_template_job : Text → Text → Json → Text → Dispatched
  dispatch_template_job job_id id params run_id = elim (c.template_of id) [
    | none ↦ some (false, [])
    | some t ↦
        let p : ParamMap = elim params [ object fs ↦ params_of_json fs | _ ↦ [] ] in
        elim (render c.print c.service.json c.what t p) [
          | failed e ↦ some (false, [])
          | done (object fs) ↦ template_body job_id id t.name fs >>= run_body run_id
          | done _ ↦ none
        ]
  ]

  unfoldable pub dispatch_job : CronJob Payload → Text → Dispatched
  dispatch_job job run_id = elim job.payload [
    | single_task cfg ↦
        let own : TaskConfig = record cfg { id = task_id cfg.id.value run_id } in
        some (is_ok (run own).status, [])
    | dag_job specs cfg ↦ run_body run_id (dag_body job.id job.name specs cfg)
    | template_job id params ↦ dispatch_template_job job.id id params run_id
  ]
