-- ===== src/Diff/Sqlserver/Sql.antt =====
-- ddl/sqlserver_migration.go: the method sql.
use sqddl.Base.{
  true, false, ◌||◌, List, [], ◌∷◌, ◌++◌, Option, none, some, if◌then◌else◌, Bytes, codes, text_eq,
}
use sqddl.Cache.Slots.{Outcome, ret, panic, ◌>>=◌}
use sqddl.Catalog.{Schema, View, Table, Routine, Column, Constraint, Index, dialect_sqlserver}
use sqddl.Diff.Files.{
  MigrationFiles, add_block, each_write, each_file, Output, no_output, finished, put_name, put_buf,
  bump, warn,
}
use sqddl.Diff.Lookups.{has_any}
use sqddl.Diff.Sqlserver.{SqlserverAlterTable, SqlserverMigration}
use sqddl.Diff.Sqlserver.Changes.{alter_sqlserver_column}
use sqddl.Diff.Steps.{each_step}
use sqddl.Sql.Quote.{quote_identifier, escape_quote}
use sqddl.Writers.Columns.{write_column_definition}
use sqddl.Writers.Constraints.{write_constraint_definition}
use sqddl.Writers.Indexes.{write_create_index}
use sqddl.Writers.Pieces.{texts, when, newline, is_foreign, qualified}
use sqddl.Writers.Tables.{write_create_table}

abbrev pub quoted : Bytes → Bytes
quoted = quote_identifier dialect_sqlserver

-- a block of one statement
abbrev pub statement : List Bytes → Bytes → Bytes
statement parts = add_block (texts (texts parts ∷ codes ";" ∷ newline ∷ []))

abbrev pub create_schema_block : Bytes → Bytes → Bytes
create_schema_block name = add_block (
    texts (
      codes "IF SCHEMA_ID('"
      ∷ escape_quote name 39
      ∷ codes "') IS NULL EXEC('CREATE SCHEMA "
      ∷ escape_quote (quoted name) 39
      ∷ codes "');"
      ∷ newline
      ∷ []))

abbrev pub pkey_columns : Option Constraint → List Bytes
pkey_columns none = []
pkey_columns (some x) = x.columns

module _ (m : SqlserverMigration) (prefix : Bytes) where
  abbrev pub table_text : Bytes → Bytes → Bytes
  table_text schema name = qualified dialect_sqlserver m.current_schema schema name

  -- the name of a table in the name of a file
  unfoldable pub label : Bytes → Bytes → Bytes
  label schema name = when (is_foreign schema m.current_schema) (schema ++ codes "_") ++ name

  -- getTablesName
  unfoldable pub tables_name : Constraint → Bytes
  tables_name fk = texts (
      label fk.table_schema fk.table_name
      ∷ codes "_"
      ∷ label fk.references_schema fk.references_table
      ∷ [])

  abbrev pub drop_fkey_block : Constraint → Bytes → Bytes
  drop_fkey_block x = statement (
      codes "ALTER TABLE "
      ∷ table_text x.table_schema x.table_name
      ∷ codes " DROP CONSTRAINT "
      ∷ quoted x.constraint_name
      ∷ [])

  abbrev pub add_fkey_block : Constraint → Bytes → Bytes
  add_fkey_block x = statement (
      codes "ALTER TABLE "
      ∷ table_text x.table_schema x.table_name
      ∷ codes " ADD "
      ∷ write_constraint_definition dialect_sqlserver m.current_schema x
      ∷ [])

  -- The file of a group of foreign keys; its name is that of the first, `fkeys[0]`.
  unfoldable pub fkeys_step :
      Bytes → (Constraint → Bytes → Bytes) → List Constraint → Output → Outcome Output
  fkeys_step action block [] o = panic
  fkeys_step action block (fk ∷ fkeys) o = ret (
      put_buf (each_write block (fk ∷ fkeys) [])
        (put_name prefix (texts (action ∷ tables_name fk ∷ codes "_fkeys.tx.sql" ∷ [])) (bump o)))

  abbrev pub drop_fkeys_step : List Constraint → Output → Outcome Output
  drop_fkeys_step = fkeys_step (codes "_drop_") drop_fkey_block

  abbrev pub add_fkeys_step : List Constraint → Output → Outcome Output
  add_fkeys_step = fkeys_step (codes "_add_") add_fkey_block

  abbrev pub schema_prefix : Schema → Bytes
  schema_prefix s =
      when (is_foreign s.schema_name m.current_schema) (quoted s.schema_name ++ codes ".")

  abbrev pub drop_view_block : Schema → View → Bytes → Bytes
  drop_view_block s v = statement (codes "DROP VIEW " ∷ schema_prefix s ∷ quoted v.view_name ∷ [])

  abbrev pub drop_owned_table_block : Schema → Table → Bytes → Bytes
  drop_owned_table_block s t =
      statement (codes "DROP TABLE " ∷ schema_prefix s ∷ quoted t.table_name ∷ [])

  abbrev pub drop_routine_block : Schema → Routine → Bytes → Bytes
  drop_routine_block s r = statement (
      (if text_eq r.routine_type (codes "FUNCTION")
        then codes "DROP FUNCTION "
        else codes "DROP PROCEDURE ")
      ∷ schema_prefix s
      ∷ quoted r.routine_name
      ∷ [])

  unfoldable pub drop_schema_buf : Schema → Bytes
  drop_schema_buf s = statement (codes "DROP SCHEMA " ∷ quoted s.schema_name ∷ []) (
      each_write (drop_routine_block s) s.routines (
        each_write (drop_owned_table_block s) s.tables (each_write (drop_view_block s) s.views [])))

  unfoldable pub drop_schema_file : Schema → Output → Output
  drop_schema_file s o =
      put_buf (drop_schema_buf s)
        (put_name prefix (texts (codes "_drop_" ∷ s.schema_name ∷ codes ".sql" ∷ [])) (bump o))

  unfoldable pub create_schemas_file : Output → Output
  create_schemas_file o =
      if has_any m.create_schemas
      then put_buf (each_write create_schema_block m.create_schemas [])
          (put_name prefix (codes "_create_schemas.sql") (bump o))
      else o

  abbrev pub drop_table_block : Table → Bytes → Bytes
  drop_table_block t = statement (codes "DROP TABLE " ∷ table_text t.table_schema t.table_name ∷ [])

  abbrev pub index_block : Index → Bytes → Bytes
  index_block x = add_block (write_create_index dialect_sqlserver m.current_schema x false)

  unfoldable pub create_table_blocks : Table → Bytes → Bytes
  create_table_blocks t buf = each_write index_block t.indexes (
      add_block (write_create_table dialect_sqlserver m.current_schema m.default_collation t true)
        buf)

  unfoldable pub table_files : Output → Output
  table_files o =
      if has_any m.drop_tables || has_any m.create_tables
      then put_buf
          (each_write create_table_blocks m.create_tables
            (each_write drop_table_block m.drop_tables []))
          (put_name prefix (codes "_tables.sql") (bump o))
      else o

  abbrev pub drop_index_block : Index → Bytes → Bytes
  drop_index_block x = statement (
      codes "DROP INDEX "
      ∷ quoted x.index_name
      ∷ codes " ON "
      ∷ table_text x.table_schema x.table_name
      ∷ [])

  abbrev pub drop_constraint_block : Bytes → Constraint → Bytes → Bytes
  drop_constraint_block table x =
      statement
        (codes "ALTER TABLE " ∷ table ∷ codes " DROP CONSTRAINT " ∷ quoted x.constraint_name ∷ [])

  abbrev pub drop_column_block : Bytes → Column → Bytes → Bytes
  drop_column_block table x =
      statement (codes "ALTER TABLE " ∷ table ∷ codes " DROP COLUMN " ∷ quoted x.column_name ∷ [])

  abbrev pub add_column_block : Bytes → Column → Bytes → Bytes
  add_column_block table x = statement (
      codes "ALTER TABLE "
      ∷ table
      ∷ codes " ADD "
      ∷ write_column_definition dialect_sqlserver m.default_collation x false
      ∷ [])

  unfoldable pub alter_buf : Bytes → SqlserverAlterTable → Bytes
  alter_buf table a = each_write (add_column_block table) a.add_columns (
      each_write (drop_column_block table) a.drop_columns (
        each_write (drop_constraint_block table) a.drop_constraints
          (each_write drop_index_block a.drop_indexes [])))

  unfoldable pub create_index_file : Index → Output → Output
  create_index_file x o =
      put_buf (write_create_index dialect_sqlserver m.current_schema x true)
        (put_name prefix (texts (codes "_create_" ∷ x.index_name ∷ codes ".tx.sql" ∷ [])) (bump o))

  unfoldable pub add_constraint_file : Bytes → Constraint → Output → Output
  add_constraint_file table x o =
      put_buf
        (texts (
          codes "ALTER TABLE "
          ∷ table
          ∷ codes " ADD "
          ∷ write_constraint_definition dialect_sqlserver m.current_schema x
          ∷ codes ";"
          ∷ newline
          ∷ []))
        (put_name prefix (texts (codes "_add_" ∷ x.constraint_name ∷ codes ".tx.sql" ∷ []))
          (bump o))

  -- the file of the table, with its buffer and warnings, and the files behind it
  unfoldable pub alter_file : Bytes → SqlserverAlterTable → Output → Bytes × List Bytes → Output
  alter_file table a o w = each_file (add_constraint_file table) a.add_constraints (
      each_file create_index_file a.create_indexes (
        warn w.1 (
          put_buf w.0 (
            put_name prefix
              (texts (codes "_alter_" ∷ label a.table_schema a.table_name ∷ codes ".tx.sql" ∷ []))
              (bump o)))))

  unfoldable pub alter_step : SqlserverAlterTable → Output → Outcome Output
  alter_step a o =
      let table = table_text a.table_schema a.table_name in
      do
        w ←
            each_step
              (λ c.
                alter_sqlserver_column m.default_collation table a.table_schema a.table_name
                  (pkey_columns a.pkey) c.0 c.1)
              a.alter_columns (alter_buf table a, [])
        ret (alter_file table a o w)

  unfoldable pub sqlserver_sql : Outcome MigrationFiles
  sqlserver_sql = do
    dropped ← each_step drop_fkeys_step m.drop_fkeys.groups (no_output m.warnings)
    altered ←
        each_step alter_step m.alter_tables
          (table_files (create_schemas_file (each_file drop_schema_file m.drop_schemas dropped)))
    fast ← each_step add_fkeys_step m.add_fast_fkeys.groups altered
    added ← each_step add_fkeys_step m.add_fkeys.groups fast
    ret (finished added)
