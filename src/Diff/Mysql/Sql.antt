-- ===== src/Diff/Mysql/Sql.antt =====
-- ddl/mysql_migration.go: the method sql.
use sqddl.Base.{
  ℕ, true, false, ◌&&◌, ◌||◌, List, [], ◌∷◌, ◌++◌, if◌then◌else◌, ltb, leb, map, Bytes, codes,
  text_eq,
}
use sqddl.Cache.Slots.{Outcome, ret, ◌>>=◌}
use sqddl.Catalog.{Table, Column, Constraint, Index, dialect_mysql}
use sqddl.Diff.Files.{
  MigrationFiles, add_block, each_write, each_file, Output, no_output, finished, put_name, put_buf,
  bump, warn, underlined, file_label,
}
use sqddl.Diff.Lookups.{has_any}
use sqddl.Diff.Mysql.{MysqlAlterTable, MysqlMigration}
use sqddl.Diff.Steps.{each_step, triple_eq}
use sqddl.Helpers.ColumnTypes.{normalize_column_type}
use sqddl.Helpers.Numbers.{atoi, go_quote}
use sqddl.Sql.Quote.{quote_identifier}
use sqddl.Writers.Columns.{write_column_definition}
use sqddl.Writers.Constraints.{write_constraint_definition}
use sqddl.Writers.Indexes.{write_create_index, write_index_definition}
use sqddl.Writers.Pieces.{texts, newline, qualified}
use sqddl.Writers.Tables.{write_create_table, item_start, item_comma}

abbrev pub quoted : Bytes → Bytes
quoted = quote_identifier dialect_mysql

abbrev pub drop_schema_block : Bytes → Bytes → Bytes
drop_schema_block name =
    add_block (texts (codes "DROP SCHEMA IF EXISTS " ∷ quoted name ∷ codes ";" ∷ newline ∷ []))

abbrev pub create_schema_block : Bytes → Bytes → Bytes
create_schema_block name =
    add_block
      (texts (codes "CREATE SCHEMA IF NOT EXISTS " ∷ quoted name ∷ codes ";" ∷ newline ∷ []))

-- the items, all but the first with a comma in front: `sep` is what the next one starts with
unfoldable pub write_items : Bytes → List Bytes → Bytes
write_items sep [] = []
write_items sep (t ∷ ts) = sep ++ (t ++ write_items item_comma ts)

abbrev pub drop_constraint_item : Constraint → Bytes
drop_constraint_item x = codes "DROP CONSTRAINT " ++ quoted x.constraint_name

abbrev pub drop_index_item : Index → Bytes
drop_index_item x = codes "DROP INDEX " ++ quoted x.index_name

abbrev pub drop_column_item : Column → Bytes
drop_column_item x = codes "DROP COLUMN " ++ quoted x.column_name

module _ (m : MysqlMigration) (prefix : Bytes) where
  abbrev pub table_text : Bytes → Bytes → Bytes
  table_text schema name = qualified dialect_mysql m.current_schema schema name

  unfoldable pub drop_fkey_file : Constraint → Output → Output
  drop_fkey_file x o =
      put_buf
        (texts (
          codes "ALTER TABLE "
          ∷ table_text x.table_schema x.table_name
          ∷ codes " DROP CONSTRAINT "
          ∷ quoted x.constraint_name
          ∷ codes ";"
          ∷ newline
          ∷ []))
        (put_name prefix (texts (codes "_drop_" ∷ underlined x.constraint_name ∷ codes ".sql" ∷ []))
          (bump o))

  unfoldable pub add_fkey_file : Constraint → Output → Output
  add_fkey_file x o =
      put_buf
        (texts (
          codes "ALTER TABLE "
          ∷ table_text x.table_schema x.table_name
          ∷ codes " ADD "
          ∷ write_constraint_definition dialect_mysql m.current_schema x
          ∷ codes ";"
          ∷ newline
          ∷ []))
        (put_name prefix (texts (codes "_add_" ∷ underlined x.constraint_name ∷ codes ".sql" ∷ []))
          (bump o))

  unfoldable pub schemas_undo : Output → Output
  schemas_undo o =
      if has_any m.create_schemas
      then put_buf (each_write drop_schema_block m.create_schemas [])
          (put_name prefix (codes "_schemas.undo.sql") o)
      else o

  unfoldable pub schema_files : Output → Output
  schema_files o =
      if has_any m.drop_schemas || has_any m.create_schemas
      then schemas_undo (
          put_buf
            (each_write create_schema_block m.create_schemas
              (each_write drop_schema_block m.drop_schemas []))
            (put_name prefix (codes "_schemas.sql") (bump o)))
      else o

  abbrev pub drop_table_block : Table → Bytes → Bytes
  drop_table_block t = add_block (
      texts (
        codes "DROP TABLE IF EXISTS "
        ∷ table_text t.table_schema t.table_name
        ∷ codes ";"
        ∷ newline
        ∷ []))

  abbrev pub index_block : Index → Bytes → Bytes
  index_block x = add_block (write_create_index dialect_mysql m.current_schema x false)

  unfoldable pub create_table_blocks : Table → Bytes → Bytes
  create_table_blocks t buf =
      each_write index_block t.indexes (
        add_block (write_create_table dialect_mysql m.current_schema m.default_collation t true)
          buf)

  unfoldable pub tables_undo : Output → Output
  tables_undo o =
      if has_any m.create_tables
      then put_buf (each_write drop_table_block m.create_tables [])
          (put_name prefix (codes "_tables.undo.sql") o)
      else o

  unfoldable pub table_files : Output → Output
  table_files o =
      if has_any m.drop_tables || has_any m.create_tables
      then tables_undo (
          put_buf
            (each_write create_table_blocks m.create_tables
              (each_write drop_table_block m.drop_tables []))
            (put_name prefix (codes "_tables.sql") (bump o)))
      else o

  -- the parts of ALTER TABLE
  abbrev pub add_column_item : Column → Bytes
  add_column_item x =
      codes "ADD COLUMN " ++ write_column_definition dialect_mysql m.default_collation x false

  abbrev pub modify_column_item : Column × Column → Bytes
  modify_column_item c =
      codes "MODIFY COLUMN " ++ write_column_definition dialect_mysql m.default_collation c.1 false

  abbrev pub add_index_item : Index → Bytes
  add_index_item x =
      codes "ADD " ++ write_index_definition dialect_mysql m.current_schema x false true

  abbrev pub add_constraint_item : Constraint → Bytes
  add_constraint_item x =
      codes "ADD " ++ write_constraint_definition dialect_mysql m.current_schema x

  abbrev pub alter_items : MysqlAlterTable → List Bytes
  alter_items a =
      map drop_constraint_item a.drop_constraints
      ++ (map drop_index_item a.drop_indexes
          ++ (map drop_column_item a.drop_columns
              ++ (map add_column_item a.add_columns
                  ++ (map modify_column_item a.alter_columns
                      ++ (map add_index_item a.create_indexes
                          ++ map add_constraint_item a.add_constraints)))))

  unfoldable pub alter_text : MysqlAlterTable → Bytes
  alter_text a = texts (
      codes "ALTER TABLE "
      ∷ table_text a.table_schema a.table_name
      ∷ write_items item_start (alter_items a)
      ∷ newline
      ∷ codes ";"
      ∷ newline
      ∷ [])

  unfoldable pub alter_file : MysqlAlterTable → Output → Output
  alter_file a o = put_buf (alter_text a) (
      put_name prefix
        (texts (
          codes "_alter_"
          ∷ file_label m.current_schema a.table_schema a.table_name
          ∷ codes ".sql"
          ∷ []))
        (bump o))

  abbrev pub change_warning : MysqlAlterTable → Column → Column → Bytes → Bytes
  change_warning a old new rest = texts (
      table_text a.table_schema a.table_name
      ∷ codes ": column "
      ∷ go_quote new.column_name
      ∷ codes " changing type from "
      ∷ go_quote old.column_type
      ∷ codes " to "
      ∷ go_quote new.column_type
      ∷ rest
      ∷ [])

  -- the limits of two VARCHARs
  unfoldable pub limit_warning : MysqlAlterTable → Column → Column → ℕ → ℕ → List Bytes
  limit_warning a old new from to =
      if ltb 0 from && ltb 0 to
      then (if leb from 255 && ltb 255 to
          then change_warning a old new (
              codes
                " is unsafe (cannot increase limit from less than or equal to 255 to greater than 255)")
            ∷ []
          else if ltb 255 from && leb to 255
          then change_warning a old new (
              codes
                " is unsafe (cannot decrease limit from greater than 255 to less than or equal to 255)")
            ∷ []
          else [])
      else []

  unfoldable pub type_warning :
      MysqlAlterTable → Column → Column → Bytes × Bytes × Bytes → Bytes × Bytes × Bytes → List Bytes
  type_warning a old new from to =
      if triple_eq from to
      then []
      else if text_eq from.0 (codes "VARCHAR") && text_eq to.0 (codes "VARCHAR")
      then limit_warning a old new (atoi from.1) (atoi to.1)
      else change_warning a old new (codes " may be unsafe") ∷ []

  unfoldable pub warn_step : MysqlAlterTable → Column × Column → Output → Outcome Output
  warn_step a c o = do
    from ← normalize_column_type dialect_mysql c.0.column_type
    to ← normalize_column_type dialect_mysql c.1.column_type
    ret (warn (type_warning a c.0 c.1 from to) o)

  unfoldable pub alter_step : MysqlAlterTable → Output → Outcome Output
  alter_step a o = each_step (warn_step a) a.alter_columns (alter_file a o)

  unfoldable pub mysql_sql : Outcome MigrationFiles
  mysql_sql = do
    altered ←
        each_step alter_step m.alter_tables
          (table_files (schema_files (each_file drop_fkey_file m.drop_fkeys (no_output []))))
    ret (finished (each_file add_fkey_file m.add_fkeys altered))
