-- ===== src/Diff.antt =====
-- ddl/*_migration.go: a migration is what turns one catalog into another. Lookups has the loops that
-- the dialects share, Files what their sql methods return, and a module for each dialect the rest.
pub mod Lookups
pub mod Reference
pub mod Files
pub mod Steps
pub mod Returns
pub mod Sqlite
pub mod Mysql
pub mod Groups
pub mod Postgres
pub mod Sqlserver
pub mod Yields
pub mod Usable
pub mod Self
pub mod Found
pub mod Aligned
pub mod Written
pub mod Tests
pub mod KeyTests
