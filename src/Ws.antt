-- ===== src/Ws.antt =====
-- server/src/ws: the WebSocket sessions, their commands, and what is broadcast to them.
pub mod Protocol
pub mod Session
pub mod Hub
