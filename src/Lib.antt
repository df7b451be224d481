-- ===== src/Lib.antt =====
-- Verification library of TaskHub's server (server/src).
--
-- The server runs tasks. A task has an identity, a configuration and a result (runner); the runner
-- tries it, and tries it again after a failure. A DAG is a list of task descriptions with their
-- dependencies (dag): the builder checks it and builds a graph, and the executor starts the nodes
-- as their dependencies succeed, within a limit of jobs at a time. Cron expressions (scheduler) say
-- when a job is due. The registry of workers (worker) takes registrations and heartbeats, and a
-- selector chooses the worker that a task is sent to. The buffer of log records (log) keeps the
-- last lines of each task for clients that poll. A login (auth) opens a session, and its token is
-- checked with each request. A template (template) is the JSON of a task with placeholders, which is
-- rendered with parameters that a schema checks. The core (core) keeps the tasks of the first
-- version of the interface and runs their commands in a pool. A WebSocket session (ws) subscribes to
-- channels by commands.
--
-- A strategy (execution) says how a task is run: it is dispatched to a worker, whose handler starts a
-- DAG and acknowledges it, or it is itself a DAG or a template, whose run is nested in the run of the
-- task. The DAG service turns the JSON of a run into task descriptions for the builder and the
-- executor. The handlers turn requests into calls of all these parts.
--
-- Files, and the code that they model:
--   Prelude, Prelude/*: shared notation, lists, keyed tables and integers.
--   Runner/Task, Runner/Names: runner/task_common.h, task_result.h, task_config.h.
--   Json, Json/*: values of the JSON library as the server passes them about.
--   Runner/ConfigJson, Runner/ConfigJson/*: runner/task_config.h, buildRequestJson and
--     parseTaskConfigFromReq.
--   Runner/Retry: runner/task_runner.cpp, runOneAttempt and runWithRetry.
--   Dag/Types, Dag/Graph: dag/dag_types.h, dag_node.*, dag_graph.*; a node is a record, and the map
--     of nodes is a list of keys and nodes. setStatus, addDependency and the others write a node.
--   Dag/Builder, Dag/Builder/*: dag/dag_builder.cpp, build, and the tables of validate.
--   Dag/Validate, Dag/Validate/*: dag/dag_builder.cpp, validate with its search for a cycle.
--   Dag/RunContext: dag/dag_run_context.*; calls to the callbacks and the database are effects in
--     the trace of a run.
--   Dag/Executor, Dag/Executor/*: dag/dag_executor.cpp. begin is the start of execute, consider and
--     Step its loop, submit_node_async is submitNodeAsync, on_node_finished is onNodeFinished.
--   Dag/ThreadPool, Dag/ThreadPool/*: dag/dag_thread_pool.*; Step is what one thread does.
--   Scheduler/Cron, Scheduler/Cron/*: scheduler/cron_parser.cpp, parse, parseField, parseRange, next.
--   Scheduler/Jobs, Scheduler/Jobs/*: scheduler/cron_job.*, cron_scheduler.cpp: addJob, removeJob,
--     scanJobsLocked, and the part of loop that triggers a job.
--   Worker/Selector, LeastLoad, RoundRobin: worker/worker_info.h, worker_selector.cpp.
--   Worker/Registry, Worker/Cooldown, Worker/Strategy, Worker/Strategy/*:
--     worker/server_worker_registry.cpp.
--   Log/Buffer, Log/Numbered: log/log_record.h, task_log_buffer.cpp.
--   Auth/Manager: auth/auth_manager.cpp, user.h.
--   Template/Types, Template/Types/*: template/template_types.h, task_template.h.
--   Template/Validator, Template/Validator/*: template/template_validator.*.
--   Template/Renderer, Template/Renderer/*: template/template_renderer.cpp, renderNode_, renderString_
--     and what they call.
--   Template/Render, Template/Render/*: template/template_renderer.cpp, render.
--   Core/Task, Core/Manager, Core/Manager/*: core/task.h, task_manager.cpp.
--   Core/Execute, Core/Execute/*: core/worker_pool.cpp, execute_one_task.
--   Core/WorkerPool, Core/WorkerPool/*: core/blocking_queue.h, worker_pool.cpp.
--   Ws/Protocol, Ws/Session, Ws/Session/*: ws/ws_protocol.h, ws_server_beast.cpp, handle_command.
--   Ws/Hub, Ws/Hub/*: ws/ws_hub.cpp, ws_log_streamer.cpp, pushLog.
--   Execution/Context, Execution/DagBody: runner/task_config.h, ExecutionContext and extractDagBody.
--   Runner/ResultJson: runner/task_result.h, taskResultToJson.
--   Execution/Remote, Execution/Remote/*: execution/remote_strategy.cpp and the helpers of
--     utils/http_params.h: Dispatch is dispatch_once, Retries is execute.
--   Execution/Nested, Execution/Nested/*: execution/dag_strategy.cpp, template_strategy.cpp.
--   Execution/Local: execution/local_strategy.cpp, execution_registry.cpp,
--     runner/local_task_registry.cpp, and dispatchExec of runner/task_runner.cpp.
--   Dag/Service, Dag/Service/*: dag/dag_service.cpp, dag_run_utils.h, DagConfig::from_json.
--   Db/Rows: db/task_run_repo.h, the row of a task run.
--   Template/Store, Template/Store/*: template/template_store.cpp.
--   Handlers/Http: core/http_response.h.
--   Handlers/Workers, Handlers/Workers/*: handlers/worker_handler.cpp; resolve is the loop that the
--     three proxy handlers share.
--   Handlers/Templates, Handlers/Templates/*: handlers/template_handler.cpp.
--   Handlers/Tasks, Login, Logs, Crons, CronBodies: handlers/task_handler.cpp, auth_handler.cpp,
--     log_handler.cpp, cron_handler.cpp; a handler gives the response, the state after it and the jobs it hands over.
--   Scheduler/Dispatch: scheduler/cron_scheduler.cpp, dispatch_job and what it calls.
--   Tests/*: concrete runs.
--
-- Threads. A handler of the executor is one atomic step on the state of the run, and the threads
-- are every interleaving of such steps: the scheduling thread takes a node from the queue, and a
-- job that is out calls back with any result. The failure that the scheduling thread reads before
-- it starts a node may be older than the start. In the two pools a step is what a thread does under
-- the lock or on one atomic variable: a task is counted in one step and pushed in another, and
-- counted as finished in one and no longer as running in another. The store of templates holds no
-- lock over its cache and its table: its calls are modelled as ones that do not overlap. The
-- registry, the log buffer and the sessions hold one lock for each call, so that a call is a
-- function on the state.
--
-- Bounds and fuel. Kahn's loop has as fuel a bound on the ids ever queued, the search for a cycle
-- the number of ids and one more, and the skipping of dependents the number of edges and one more:
-- each round takes an entry that was put in once. The rendering of a text has its length and one
-- more, and the attempts of a task the number of its retries and one more; where that number would
-- overflow an int, a run with retries is not defined. The loop over a cron range has the bound of
-- the range and two more; a step that would overflow an int is the outcome `undefined`. The search
-- for a minute makes the source's own 365 * 24 * 60 checks. Sequence numbers of log records wrap at
-- 64 bits.
--
-- Parameters. std::stoi and localtime_r are arguments of the cron model, where localtime_r is
-- assumed to stay in the ranges that it documents; the strategies that execute a task, and what an
-- attempt reads of the clock and the cancel flag, are arguments of the models of the runner and of
-- the worker pool, where an attempt may also never return; the clock is an argument wherever it is
-- read. The JSON library's parser, conversions and printers are arguments; where a value is read
-- back, they are assumed to give what was written, for texts, Booleans and integers of the ranges
-- of int and long long. Whether an SQL statement is carried out, and whether a proxy connects, is
-- an argument. The table of templates is an interface whose laws say that the id is its key, and
-- whose SELECT may fail. What a worker answers to a call, what other threads do to the registry
-- between two attempts, and the run of a graph by the executor are arguments of the models of the
-- dispatch and of the DAG service; std::to_string and std::stoi are assumed to read a number of the
-- range of int back where a nesting depth is passed on as a text. The search for a nested run has
-- as fuel the length of its path and one more: each round takes a node off it.
--
-- Not modelled: the SQL of the database, sockets, the router, the processes that shell and script
-- strategies start, the HTTP strategy, file output of logs, and the client. Of the cron scheduler's
-- loop, the waits are not part of the library.
pub mod Prelude
pub mod Json
pub mod Runner
pub mod Dag
pub mod Db
pub mod Execution
pub mod Handlers
pub mod Template
pub mod Core
pub mod Scheduler
pub mod Worker
pub mod Log
pub mod Auth
pub mod Ws
mod Tests
