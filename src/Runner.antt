-- ===== src/Runner.antt =====
-- server/src/runner: what a task is, and how the runner tries it.
pub mod Task
pub mod Names
pub mod Retry
pub mod ConfigJson
pub mod ResultJson
