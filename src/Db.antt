-- ===== src/Db.antt =====
-- server/src/db: the rows that the server keeps in its database.
pub mod Rows
