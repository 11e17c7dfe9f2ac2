-- ===== src/Database.antt =====
-- src/database/db.c: queries to a table of strings.
pub mod Query
pub mod Stored
mod Tests
