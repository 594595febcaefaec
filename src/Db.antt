-- ===== src/Db.antt =====
-- The SQLite database (migrations/*.up.sql) and the calls that reach it.
pub mod Adds
pub mod Schema
pub mod Io
pub mod Keeps
pub mod Ensures
pub mod Succeeds
