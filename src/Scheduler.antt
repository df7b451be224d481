-- ===== src/Scheduler.antt =====
-- server/src/scheduler: when jobs are due.
pub mod Cron
pub mod Jobs
pub mod Dispatch
