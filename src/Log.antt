-- ===== src/Log.antt =====
-- server/src/log: the buffer of log records.
pub mod Buffer
pub mod Numbered
