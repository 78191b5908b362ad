-- ===== src/Store.antt =====
-- The database that the server keeps: its tables, its statements and its transactions.
pub mod Rows
pub mod Sql
pub mod Documents
pub mod Monad
pub mod Rules
pub mod Steps
pub mod Keys
pub mod Dialect
