-- ===== src/Store.antt =====
-- The database of one tenant as src/pg_agmemory/storage/*.sql lays it out: the tables that the
-- modelled operations read and write, the row-level visibility of objects, and transactions.
-- Every connection is bound to one tenant, so the tenant column of each table is left out. A table
-- is a list of rows, the newest first. A UUID and a timestamp are numbers.
pub mod Rows
pub mod Tables
pub mod Exec
pub mod Keeps
pub mod Visibility
