-- ===== src/Diff/Postgres/Sql.antt =====
-- ddl/postgres_migration.go: the method sql.
use sqddl.Base.{true, false, ◌&&◌, ◌||◌, List, [], ◌∷◌, ◌++◌, if◌then◌else◌, Bytes, codes}
use sqddl.Cache.Slots.{Outcome, ret, panic, ◌>>=◌}
use sqddl.Catalog.{Table, Column, Constraint, Index, zero_index, dialect_postgres}
use sqddl.Diff.Files.{
  MigrationFiles, add_block, each_write, each_file, Output, no_output, finished, put_name, put_buf,
  bump, warn, underlined, file_label,
}
use sqddl.Diff.Lookups.{has_any}
use sqddl.Diff.Postgres.{PostgresAlterTable, PostgresMigration}
use sqddl.Diff.Postgres.Changes.{change_column, change_warnings}
use sqddl.Diff.Steps.{each_step}
use sqddl.Helpers.ColumnTypes.{normalize_column_type}
use sqddl.Helpers.Numbers.{go_quote}
use sqddl.Helpers.Versions.{lower_than}
use sqddl.Sql.Quote.{quote_identifier}
use sqddl.Writers.Columns.{write_column_definition}
use sqddl.Writers.Constraints.{write_constraint_definition}
use sqddl.Writers.Indexes.{write_create_index}
use sqddl.Writers.Pieces.{texts, when, newline, is_given, is_foreign, qualified}
use sqddl.Writers.Tables.{write_create_table}

abbrev pub quoted : Bytes → Bytes
quoted = quote_identifier dialect_postgres

-- a block of one statement
abbrev pub statement : List Bytes → Bytes → Bytes
statement parts = add_block (texts (texts parts ∷ codes ";" ∷ newline ∷ []))

abbrev pub drop_schema_block : Bytes → Bytes → Bytes
drop_schema_block name =
    statement (codes "DROP SCHEMA IF EXISTS " ∷ quoted name ∷ codes " CASCADE" ∷ [])

abbrev pub create_schema_block : Bytes → Bytes → Bytes
create_schema_block name = statement (codes "CREATE SCHEMA IF NOT EXISTS " ∷ quoted name ∷ [])

abbrev pub alter_constraint_block : Bytes → Constraint × Constraint → Bytes → Bytes
alter_constraint_block table c = statement (
    codes "ALTER TABLE "
    ∷ table
    ∷ codes " ALTER CONSTRAINT "
    ∷ quoted c.1.constraint_name
    ∷ (if c.1.is_deferrable then codes " DEFERRABLE" else codes " NOT DEFERRABLE")
    ∷ when c.1.is_initially_deferred (codes " INITIALLY DEFERRED")
    ∷ [])

-- three statements on a column that is not null, with no blank line between them
unfoldable pub validate_block : Bytes → Column → Bytes → Bytes
validate_block table x =
    let check =
      quoted (texts (x.table_name ∷ codes "_" ∷ x.column_name ∷ codes "_not_null_check" ∷ [])) in
    add_block (
      texts (
        codes "ALTER TABLE "
        ∷ table
        ∷ codes " VALIDATE CONSTRAINT "
        ∷ check
        ∷ codes ";"
        ∷ newline
        ∷ codes "ALTER TABLE "
        ∷ table
        ∷ codes " ALTER COLUMN "
        ∷ quoted x.column_name
        ∷ codes " SET NOT NULL;"
        ∷ newline
        ∷ codes "ALTER TABLE "
        ∷ table
        ∷ codes " DROP CONSTRAINT "
        ∷ check
        ∷ codes ";"
        ∷ newline
        ∷ []))

-- the index that stands behind a key
abbrev pub key_index : Constraint → Index
key_index x = record zero_index {
  table_schema = x.table_schema;
  table_name = x.table_name;
  index_name = x.constraint_name;
  is_unique = true;
  columns = x.columns;
}

module _ (m : PostgresMigration) (prefix : Bytes) where
  abbrev pub table_text : Bytes → Bytes → Bytes
  table_text schema name = qualified dialect_postgres m.current_schema schema name

  -- ${table1}_${table2}
  unfoldable pub fkeys_label : Constraint → Bytes
  fkeys_label fk = texts (
      file_label m.current_schema fk.table_schema fk.table_name
      ∷ codes "_"
      ∷ when (is_foreign fk.references_schema m.current_schema)
          (underlined fk.references_schema ++ codes "_")
      ∷ underlined fk.references_table
      ∷ [])

  abbrev pub drop_fkey_block : Bytes → Constraint → Bytes → Bytes
  drop_fkey_block table x = statement (
      codes "ALTER TABLE "
      ∷ table
      ∷ codes " DROP CONSTRAINT IF EXISTS "
      ∷ quoted x.constraint_name
      ∷ [])

  abbrev pub add_fkey_block : Bytes → Bytes → Constraint → Bytes → Bytes
  add_fkey_block table ending x = statement (
      codes "ALTER TABLE "
      ∷ table
      ∷ codes " ADD "
      ∷ write_constraint_definition dialect_postgres m.current_schema x
      ∷ ending
      ∷ [])

  abbrev pub validate_fkey_block : Bytes → Constraint → Bytes → Bytes
  validate_fkey_block table x =
      statement (
        codes "ALTER TABLE "
        ∷ table
        ∷ codes " VALIDATE CONSTRAINT "
        ∷ quoted x.constraint_name
        ∷ [])

  -- A group of foreign keys: the table of the first, `fkeys[0]`, is altered for each of them.
  abbrev pub of_first : (Constraint → Output → Output) → List Constraint → Output → Outcome Output
  of_first file [] o = panic
  of_first file (fk ∷ fkeys) o = ret (file fk o)

  abbrev pub fkeys_file :
      Bytes → List Constraint → (Bytes → Constraint → Bytes → Bytes) → Constraint → Output → Output
  fkeys_file action fkeys block fk o =
      put_buf (each_write (block (table_text fk.table_schema fk.table_name)) fkeys [])
        (put_name prefix (texts (action ∷ fkeys_label fk ∷ codes "_fkeys.tx.sql" ∷ [])) (bump o))

  unfoldable pub drop_fkeys_step : List Constraint → Output → Outcome Output
  drop_fkeys_step fkeys = of_first (fkeys_file (codes "_drop_") fkeys drop_fkey_block) fkeys

  unfoldable pub add_fast_fkeys_step : List Constraint → Output → Outcome Output
  add_fast_fkeys_step fkeys =
      of_first (fkeys_file (codes "_add_") fkeys (λ table. add_fkey_block table [])) fkeys

  unfoldable pub add_fkeys_step : List Constraint → Output → Outcome Output
  add_fkeys_step fkeys =
      of_first
        (λ fk o. fkeys_file (codes "_validate_") fkeys validate_fkey_block fk (
          fkeys_file (codes "_add_") fkeys (λ table. add_fkey_block table (codes " NOT VALID")) fk
            o))
        fkeys

  unfoldable pub schema_files : Output → Output
  schema_files o =
      if has_any m.drop_schemas || has_any m.create_schemas
      then put_buf
          (each_write create_schema_block m.create_schemas
            (each_write drop_schema_block m.drop_schemas []))
          (put_name prefix (codes "_schemas.sql") (bump o))
      else o

  abbrev pub drop_table_block : Table → Bytes → Bytes
  drop_table_block t =
      statement (codes "DROP TABLE IF EXISTS " ∷ table_text t.table_schema t.table_name ∷ [])

  abbrev pub index_block : Index → Bytes → Bytes
  index_block x = add_block (write_create_index dialect_postgres m.current_schema x false)

  unfoldable pub create_table_blocks : Table → Bytes → Bytes
  create_table_blocks t buf = each_write index_block t.indexes (
      add_block (write_create_table dialect_postgres m.current_schema m.default_collation t true)
        buf)

  unfoldable pub table_files : Output → Output
  table_files o =
      if has_any m.drop_tables || has_any m.create_tables
      then put_buf
          (each_write create_table_blocks m.create_tables
            (each_write drop_table_block m.drop_tables []))
          (put_name prefix (codes "_tables.sql") (bump o))
      else o

  abbrev pub drop_index_block : Index → Bytes → Bytes
  drop_index_block x =
      statement (codes "DROP INDEX IF EXISTS " ∷ table_text x.table_schema x.index_name ∷ [])

  abbrev pub drop_constraint_block : Bytes → Constraint → Bytes → Bytes
  drop_constraint_block table x = statement (
      codes "ALTER TABLE "
      ∷ table
      ∷ codes " DROP CONSTRAINT IF EXISTS "
      ∷ quoted x.constraint_name
      ∷ [])

  abbrev pub drop_column_block : Bytes → Column → Bytes → Bytes
  drop_column_block table x =
      statement
        (codes "ALTER TABLE " ∷ table ∷ codes " DROP COLUMN IF EXISTS " ∷ quoted x.column_name ∷ [])

  abbrev pub add_column_block : Bytes → Column → Bytes → Bytes
  add_column_block table x = statement (
      codes "ALTER TABLE "
      ∷ table
      ∷ codes " ADD COLUMN "
      ∷ write_column_definition dialect_postgres m.default_collation x false
      ∷ [])

  -- the second text gives the identity and the name in the wrong order
  unfoldable pub add_column_warning : Bytes → Column → List Bytes
  add_column_warning table x =
      if is_given x.column_default && lower_than m.version_nums (11 ∷ [])
      then texts (
          table
          ∷ codes ": adding column "
          ∷ go_quote (quoted x.column_name)
          ∷ codes
              " with DEFAULT is unsafe for large tables. Upgrade to Postgres 11+ to avoid this issue. If not, you should add a column without the default first, backfill the default values, then set the column default"
          ∷ [])
        ∷ []
      else if is_given x.column_identity && lower_than m.version_nums (11 ∷ [])
      then texts (
          table
          ∷ codes ": adding column "
          ∷ go_quote x.column_identity
          ∷ codes " with "
          ∷ go_quote (quoted x.column_name)
          ∷ codes
              " is unsafe for large tables. Upgrade to Postgres 11+ to avoid this issue. If not, you should add a column without the identity first, backfill the identity values, then add the identity to the column and finally update the identity sequence"
          ∷ [])
        ∷ []
      else []

  unfoldable pub add_column_warnings : Bytes → List Column → List Bytes
  add_column_warnings table [] = []
  add_column_warnings table (x ∷ xs) = add_column_warning table x ++ add_column_warnings table xs

  -- the buffer of an alteration and its warnings, after the columns are added
  abbrev pub Written : Type 0
  Written = Bytes × List Bytes

  unfoldable pub alter_column_step : Bytes → Column × Column → Written → Outcome Written
  alter_column_step table c w = do
    from ← normalize_column_type dialect_postgres c.0.column_type
    to ← normalize_column_type dialect_postgres c.1.column_type
    ret (
      change_column m.version_nums m.default_collation table c.0 c.1 from to w.0,
      w.1 ++ change_warnings m.version_nums m.default_collation table c.0 c.1 from to,
    )

  unfoldable pub alter_buf : Bytes → PostgresAlterTable → Bytes
  alter_buf table a = each_write (add_column_block table) a.add_columns (
      each_write (drop_column_block table) a.drop_columns (
        each_write (drop_constraint_block table) a.drop_constraints
          (each_write drop_index_block a.drop_indexes [])))

  unfoldable pub validate_file : Bytes → Bytes → PostgresAlterTable → Output → Output
  validate_file table label a o =
      if has_any a.validate_not_null
      then put_buf (each_write (validate_block table) a.validate_not_null []) (
          put_name prefix (texts (codes "_validate_" ∷ label ∷ codes "_not_null.tx.sql" ∷ []))
            (bump o))
      else o

  -- an index and the file that undoes it
  unfoldable pub create_index_files : Index → Output → Output
  create_index_files x o =
      let label = underlined x.index_name in
      put_buf (drop_index_block x []) (
        put_name prefix (texts (codes "_create_" ∷ label ∷ codes ".undo.sql" ∷ [])) (
          put_buf (write_create_index dialect_postgres m.current_schema x true) (
            put_name prefix (texts (codes "_create_" ∷ label ∷ codes ".txoff.sql" ∷ [])) (bump o))))

  unfoldable pub add_key_files : Bytes → Constraint → Output → Output
  add_key_files table x o =
      let name = quoted x.constraint_name in
      put_buf
        (texts (
          codes "ALTER TABLE "
          ∷ table
          ∷ codes " ADD CONSTRAINT "
          ∷ name
          ∷ codes " "
          ∷ x.constraint_type
          ∷ codes " USING INDEX "
          ∷ name
          ∷ codes ";"
          ∷ newline
          ∷ []))
        (put_name prefix
          (texts (codes "_add_" ∷ underlined x.constraint_name ∷ codes ".tx.sql" ∷ []))
          (bump (create_index_files (key_index x) o)))

  -- the files behind the one of the table
  unfoldable pub concurrent_files : Bytes → Bytes → PostgresAlterTable → Output → Output
  concurrent_files table label a o =
      each_file (add_key_files table) a.add_constraints_concurrently
        (each_file create_index_files a.create_indexes_concurrently (validate_file table label a o))

  unfoldable pub alter_file : Bytes → Bytes → PostgresAlterTable → Output → Written → Output
  alter_file table label a o w = concurrent_files table label a (
      warn w.1 (
        put_buf (each_write (alter_constraint_block table) a.alter_constraints w.0)
          (put_name prefix (texts (codes "_alter_" ∷ label ∷ codes ".tx.sql" ∷ [])) (bump o))))

  unfoldable pub alter_step : PostgresAlterTable → Output → Outcome Output
  alter_step a o =
      let table = table_text a.table_schema a.table_name in
      do
        w ←
            each_step (alter_column_step table) a.alter_columns
              (alter_buf table a, add_column_warnings table a.add_columns)
        ret (alter_file table (file_label m.current_schema a.table_schema a.table_name) a o w)

  unfoldable pub postgres_sql : Outcome MigrationFiles
  postgres_sql = do
    dropped ← each_step drop_fkeys_step m.drop_fkeys.groups (no_output [])
    altered ← each_step alter_step m.alter_tables (table_files (schema_files dropped))
    fast ← each_step add_fast_fkeys_step m.add_fast_fkeys.groups altered
    added ← each_step add_fkeys_step m.add_fkeys.groups fast
    ret (finished added)
