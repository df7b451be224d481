-- ===== src/Core.antt =====
-- server/src/core: the tasks of the first version of the server, their manager, and the pool that
-- runs them.
pub mod Task
pub mod Manager
pub mod Execute
pub mod WorkerPool
