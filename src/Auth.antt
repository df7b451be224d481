-- ===== src/Auth.antt =====
-- server/src/auth: users, and the sessions that a login opens.
pub mod Manager
