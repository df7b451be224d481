-- ===== src/Handlers.antt =====
-- server/src/handlers: what the HTTP server's handlers answer, and what they do to the server's state.
pub mod Http
pub mod Workers
pub mod Templates
pub mod Tasks
pub mod Login
pub mod Logs
pub mod CronBodies
pub mod Crons
