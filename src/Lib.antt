-- ===== src/Lib.antt =====
-- A model of sqddl, a tool that manages database schemas and their migrations, and what is proved
-- of it. The program reads struct tags into modifiers, keeps a database's structure as a catalog of
-- schemas, tables and columns, and runs migration files against a database.
--
-- Parts, by file:
-- - Base: names of the libraries, and lists and byte strings over the native numbers. A Go string
--   is the list of its bytes.
-- - Modifier (ddl/modifier.go): the modifiers in a struct tag. Modifier/Parse has NewModifiers,
--   popModifier, popValue and ParseRawValue as `new_modifiers`, `pop_modifier`, `pop_value` and
--   `parse_raw_value`; Modifier/Print has Modifiers.String and writeBuf as `to_string` and
--   `write_buf`. The loop of NewModifiers runs on the length of the text as fuel: each round that
--   goes on takes a byte at least, which Modifier/Totality shows.
-- - Catalog (ddl/ddl.go): the structs of a catalog with all their fields. nil and empty slices are
--   one.
-- - Cache (ddl/catalog_cache.go): the CatalogCache, a record of Go maps, as association lists. A
--   method that takes a pointer to the owner (a catalog, schema, table or view) takes and returns
--   the owner and the cache; a returned pointer is the position in the owner's slice, and an index
--   out of range is the outcome `panic`. GetTable is `get_table`, GetOrCreateTable is
--   `get_or_create_table`, AddOrUpdateTable is `add_or_update_table`, and so for the other kinds.
--   What the methods share stands once in Cache/Slots. Cache/Kinds is the interface of a kind of
--   object, which Cache/Instances fills for ten kinds; its laws give the theorems of Cache/Correct,
--   and Cache/Sequences has many calls in a row. NewCatalogCache is `new_catalog_cache` of
--   Cache/Build, and WriteCatalog is `write_catalog` of Cache/Write.
-- - Migrate (ddl/migrate_cmd.go): `run` of Migrate/Run is (*MigrateCmd).run, `run_with_retry` and
--   `undo` of Migrate/Retry are runWithRetry and undo, and `run_queues` of Migrate/Queue is the
--   loop of (*MigrateCmd).Run that groups the migrations. The database, the migration directory,
--   the driver's hooks, the hash and the random numbers are the fields of World, a parameter. What
--   is relied on of transactions is the record Transactional, which the theorem on rollbacks takes.
--   The retry loop runs on fuel max(1, MaxAttempts), since attempt MaxAttempts is the last and
--   there is always a first. An int64 product wraps at 2^64.
-- - Sql (ddl/sq.go): QuoteIdentifier and EscapeQuote as `quote_identifier` and `escape_quote`, with
--   the keyword tables. Sql/Reading says how a database reads a name, with quotes and names of its
--   own; it takes the reserved words of each dialect from the keyword tables.
-- - Files (ddl/touch_cmd.go): sortAndFilterFilenames and normalizeFilename as
--   `sort_and_filter_filenames` and `normalize_filename`, where paths have slashes.
-- - Helpers (ddl/ddl.go): GenerateName, VersionNums.LowerThan and GreaterOrEqualTo, and splitArgs,
--   as `generate_name`, `lower_than`, `greater_or_equal_to` and `split_args`, whose loop runs on
--   the length of the text and one more as fuel; wrapBrackets, unwrapBrackets and wrappedInBrackets
--   in Helpers/Brackets, isLiteral in Helpers/Literals, normalizeColumnType and
--   normalizeColumnDefault in Helpers/ColumnTypes, as `normalize_column_type`, where a slice out of
--   range is the outcome `panic`, and `normalize_column_default`. Helpers/Numbers has Atoi, %02d
--   and %q; the digits of a number run on the number and one more as fuel. NormalizeDSN is
--   `normalize_dsn` of Helpers/Dsn; the files and the registered drivers are parameters. Upper case
--   and spaces are those of ASCII.
-- - Writers (ddl/dump_cmd.go): writeCreateSchema, writeCreateTable, writeCreateIndex,
--   writeIndexDefinition, writeColumnDefinition, writeColumnNames and writeConstraintDefinition, as
--   `write_create_table` and so on, which return the text that is appended to the buffer.
-- - Diff (ddl/sqlite_migration.go, ddl/mysql_migration.go, ddl/postgres_migration.go,
--   ddl/sqlserver_migration.go): the difference of two catalogs and its SQL. Diff/Lookups and
--   Diff/Steps have the loops that the dialects share and when two columns differ, Diff/Files the
--   files with their numbers, buffers and warnings. newSQLiteMigration and sqliteMigration.sql are
--   `new_sqlite_migration` of Diff/Sqlite and `sqlite_sql` of Diff/Sqlite/Sql; so for
--   `new_mysql_migration`, `mysql_sql`, `new_postgres_migration` and `postgres_sql`, and for
--   `new_sqlserver_migration` of Diff/Sqlserver/New and `sqlserver_sql`. Diff/Groups has the groups
--   of foreign keys of the last two, and Diff/Sqlserver/Dependencies what SQL Server makes again
--   for an altered column. A pointer into a catalog is the object that it points to; the names that
--   newSQLiteMigration writes into the constraints of its arguments are put in beforehand, by
--   `named_catalog`. Diff/Sqlite/Reference says the difference without caches. Diff/Returns and
--   Diff/Yields have the rules for steps that may panic, and Diff/Self and Diff/Found what comes of
--   comparing a catalog with itself. Each append to filenames and to bufs is a step of its own,
--   `put_name` and `put_buf` of Diff/Files; what is written to a buffer later is part of its text.
--
-- How they interact: the catalog is the data that the cache indexes; NewCatalogCache writes down
-- where the catalog's objects stand, and the other operations look there. run_queues calls
-- run_with_retry for each group, which calls run until it succeeds or fails for good. The
-- migrations that run_queues is given come in the order of sort_and_filter_filenames. The
-- migrations of Diff look objects up in the caches that NewCatalogCache makes of both catalogs,
-- compare columns with the helpers, and write SQL with the writers, which quote names with Sql.
--
-- Not modelled: the flags, the history query and the session settings of the migrate
-- command, and the batch insert that writes history rows, which World has as `upsert`; timestamps
-- and durations in the log lines; the struct parser and the subsetter; that two slices of foreign
-- keys share memory after line 426 of ddl/sqlserver_migration.go; introspection, dump and load,
-- which are database and file I/O. `is_literal` leaves hexadecimal numbers out and does not refuse
-- numbers out of range; %q is that of text whose runes outside of ASCII are printable.
pub mod Base
pub mod Catalog
pub mod Modifier
pub mod Cache
pub mod Migrate
pub mod Sql
pub mod Files
pub mod Helpers
pub mod Writers
pub mod Diff
