-- ===== src/Storage.antt =====
-- internal/storage/postgres: the tables as a record, and the statements and transactions on them. A
-- transaction is one step: the database commits all of it or nothing.
pub mod Tables
pub mod Ledger
pub mod Work
pub mod Blocks
pub mod ShareWriter
