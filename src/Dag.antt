-- ===== src/Dag.antt =====
-- server/src/dag: building, validating and running a graph of tasks.
pub mod Types
pub mod Graph
pub mod Builder
pub mod Validate
pub mod RunContext
pub mod Executor
pub mod ThreadPool
pub mod Service
