-- ===== src/Tests/ConfigTests.antt =====
-- A configuration that is sent and received.
use task_hub.Runner.Task.{TaskConfig, default_config, task_id, shell, critical}
use task_hub.Prelude.{[], ◌∷◌, text, pos, Text-Eq}

abbrev sent_config : TaskConfig
sent_config = record default_config {
  id = task_id (text "a") (text "r");
  exec_type = shell;
  exec_params = (text "cwd", text "/tmp") ∷ [];
  priority = critical;
  retry_count = pos 2;
}
