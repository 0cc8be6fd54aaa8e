-- ===== src/Store.antt =====
-- The operational database: the tables of src/db/migrations, as the record `Db`, and the
-- transaction of src/db/libsql-operational-store.ts. A timestamp is a number of milliseconds: the
-- tables hold them in one fixed ISO format, in which the order of texts is the order of times.
pub mod ContainmentRows
pub mod Rows
pub mod ContainmentWrites
pub mod ContainmentInversion
pub mod Tx
pub mod Writes
pub mod Inversion
