-- ===== src/Migrate.antt =====
-- ddl/migrate_cmd.go: running migrations. World has what the command stands on (the database, the
-- directory, the driver) and its data; Run has (*MigrateCmd).run, Retry has runWithRetry and undo,
-- Queue the loop of (*MigrateCmd).Run that groups the migrations.
pub mod World
pub mod Run
pub mod Applied
pub mod Rollback
pub mod Stopped
pub mod Delay
pub mod ShortDelay
pub mod Termination
pub mod Failed
pub mod Retry
pub mod Queue
pub mod Groups
pub mod Tests
