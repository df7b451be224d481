-- ===== src/Tests.antt =====
-- Concrete runs: inputs on which the theorems' hypotheses hold.
mod DagTests
mod ExecutionTests
mod HandlerTests
mod RequestTests
mod OrderTests
mod CronTests
mod WorkerTests
mod RetryTests
mod LogTests
mod AuthTests
mod TemplateTests
mod ConfigTests
mod PoolTests
mod CoreTests
mod JobTests
mod SessionTests
