-- ===== src/Execution.antt =====
-- server/src/execution: what the strategies share, and the strategies.
pub mod Context
pub mod DagBody
pub mod Remote
pub mod Nested
pub mod Local
