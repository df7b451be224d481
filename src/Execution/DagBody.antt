-- ===== src/Execution/DagBody.antt =====
-- server/src/runner/task_config.h: the DAG that the parameters of a task describe.
use task_hub.Runner.Task.{TaskConfig}
use task_hub.Execution.Context.{TextCalls}
use task_hub.Prelude.{
  pos, Text, text, Text-Eq, ◌++◌, Option, none, some, find, is_empty, if◌then◌else◌,
}
use task_hub.Json.{Fields, object, integer, string, end, set_field}

pub data Extracted : Type 0 where
  body : Fields → Extracted
  failed : Text → Extracted

-- `body[key] = text` if there is a text.
unfoldable pub set_text : Text → Option Text → Fields → Fields
set_text k none fs = fs
set_text k (some s) fs = set_field k (string s) fs

module _ (t : TextCalls) where
  -- The configuration that is made of the flat keys.
  unfoldable pub flat_config : TaskConfig → Fields
  flat_config cfg =
      let ps = cfg.exec_params in
      let policy = set_text (text "fail_policy") (find (text "config.fail_policy") ps) end in
      let parallel : Fields = elim (find (text "config.max_parallel") ps) [
        | none ↦ policy
        | some s ↦ elim (t.stoi s) [
          | none ↦ set_field (text "max_parallel") (integer (pos 4)) policy
          | some i ↦ set_field (text "max_parallel") (integer i) policy
        ]
      ] in
      set_field (text "name") (string cfg.name) parallel

  abbrev unreadable : Text → Extracted
  unreadable s =
      failed (text "extractDagBody: failed to parse structured exec_params: " ++ t.parse_error s)

  unfoldable pub structured_body : TaskConfig → Text → Extracted
  structured_body cfg tasks = elim (t.parse tasks) [
    | none ↦ unreadable tasks
    | some tasks' ↦
        let out = set_field (text "tasks") tasks' end in
        let run_id = find (text "run_id") cfg.exec_params in
        elim (find (text "config") cfg.exec_params) [
          | none ↦ body (
              set_text (text "run_id") run_id
                (set_field (text "config") (object (flat_config cfg)) out))
          | some config ↦ elim (t.parse config) [
            | none ↦ unreadable config
            | some config' ↦
                body (set_text (text "run_id") run_id (set_field (text "config") config' out))
          ]
        ]
  ]

  unfoldable pub legacy_body : TaskConfig → Extracted
  legacy_body cfg =
      let raw : Text = elim (find (text "dag_json") cfg.exec_params) [
        | some s ↦ s
        | none ↦ cfg.exec_command
      ] in
      if is_empty raw
      then failed (text "extractDagBody: missing dag_json or tasks array")
      else elim (t.parse raw) [
        | some (object fs) ↦ body fs
        | _ ↦ failed (text "extractDagBody: invalid dag_json or structured payload")
      ]

  unfoldable pub extract_dag_body : TaskConfig → Extracted
  extract_dag_body cfg = elim (find (text "tasks") cfg.exec_params) [
    | some tasks ↦ structured_body cfg tasks
    | none ↦ legacy_body cfg
  ]
