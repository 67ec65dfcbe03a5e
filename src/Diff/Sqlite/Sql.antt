-- ===== src/Diff/Sqlite/Sql.antt =====
-- ddl/sqlite_migration.go: the methods sql and copyTable.
use sqddl.Base.{
  Bool, true, false, not, ◌||◌, List, [], ◌∷◌, ◌++◌, if◌then◌else◌, Bytes, codes, text_eq,
}
use sqddl.Cache.Slots.{Outcome, ret, panic, ◌>>=◌}
use sqddl.Catalog.{Table, Column, Constraint, Index, Trigger, foreign_key, dialect_sqlite}
use sqddl.Diff.Files.{MigrationFiles, add_block, each_write}
use sqddl.Diff.Lookups.{has_any}
use sqddl.Diff.Sqlite.{SqliteAlterTable, SqliteMigration}
use sqddl.Sql.Quote.{quote_identifier, is_among}
use sqddl.Writers.Columns.{write_column_definition}
use sqddl.Writers.Indexes.{write_create_index, replace_first}
use sqddl.Writers.Pieces.{texts, is_given, newline, write_column_names}
use sqddl.Writers.Tables.{write_create_table}

abbrev pub quoted : Bytes → Bytes
quoted = quote_identifier dialect_sqlite

-- constraint.Columns[0] of a foreign key on one column at most: is it among the names?
abbrev pub is_off_names : List Bytes → List Bytes → Outcome Bool
is_off_names names [] = panic
is_off_names names (c ∷ columns) = ret (if has_any columns then true else not (is_among names c))

-- whether a constraint that goes or comes forces the table to be copied
unfoldable pub forces_copy : List Bytes → Constraint → Outcome Bool
forces_copy names x =
    if text_eq x.constraint_type foreign_key then is_off_names names x.columns else ret true

unfoldable pub any_forces_copy : List Bytes → List Constraint → Outcome Bool
any_forces_copy names [] = ret false
any_forces_copy names (x ∷ xs) = do
  here ← forces_copy names x
  rest ← any_forces_copy names xs
  ret (here || rest)

unfoldable pub constraints_force_copy : SqliteAlterTable → Outcome Bool
constraints_force_copy a = do
  dropping ← any_forces_copy a.column_is_dropped a.drop_constraints
  adding ← any_forces_copy a.column_is_added a.add_constraints
  ret (dropping || adding)

-- copyTable[i]
unfoldable pub is_copied : SqliteAlterTable → Outcome Bool
is_copied a = if has_any a.alter_columns then ret true else constraints_force_copy a

unfoldable pub with_copied : List SqliteAlterTable → Outcome (List (SqliteAlterTable × Bool))
with_copied [] = ret []
with_copied (a ∷ others) = do b ← is_copied a; rest ← with_copied others; ret ((a, b) ∷ rest)

unfoldable pub has_copied : List (SqliteAlterTable × Bool) → Bool
has_copied [] = false
has_copied (a ∷ others) = a.1 || has_copied others

-- the names of the columns that take a value: those that are not generated
unfoldable pub plain_names : List Column → List Bytes
plain_names [] = []
plain_names (x ∷ xs) =
    if x.is_generated || is_given x.generated_expr
    then plain_names xs
    else x.column_name ∷ plain_names xs

unfoldable pub names_among : List Bytes → List Column → List Bytes
names_among names [] = []
names_among names (x ∷ xs) =
    if is_among names x.column_name
    then x.column_name ∷ names_among names xs
    else names_among names xs

-- the columns whose values are copied from the old table
unfoldable pub insert_columns : SqliteAlterTable → List Bytes
insert_columns a = names_among (plain_names a.dest_table.columns) a.src_table.columns

unfoldable pub new_table : Table → Table
new_table t =
    let name = t.table_name ++ codes "_new" in
    record t {
      table_name = name;
      sql =
          replace_first (codes "CREATE TABLE " ++ quoted t.table_name)
            (codes "CREATE TABLE " ++ quoted name) t.sql;
    }

unfoldable pub insert_select : SqliteAlterTable → Bytes
insert_select a =
    let names = write_column_names dialect_sqlite (insert_columns a) in
    texts (
      codes "INSERT INTO "
      ∷ quoted (a.dest_table.table_name ++ codes "_new")
      ∷ newline
      ∷ codes "    ("
      ∷ names
      ∷ codes ")"
      ∷ newline
      ∷ codes "SELECT"
      ∷ newline
      ∷ codes "    "
      ∷ names
      ∷ newline
      ∷ codes "FROM"
      ∷ newline
      ∷ codes "    "
      ∷ quoted a.dest_table.table_name
      ∷ newline
      ∷ codes ";"
      ∷ newline
      ∷ [])

unfoldable pub swap_tables : SqliteAlterTable → Bytes
swap_tables a =
    let name = quoted a.dest_table.table_name in
    texts (
      codes "DROP TABLE "
      ∷ name
      ∷ codes ";"
      ∷ newline
      ∷ codes "ALTER TABLE "
      ∷ quoted (a.dest_table.table_name ++ codes "_new")
      ∷ codes " RENAME TO "
      ∷ name
      ∷ codes ";"
      ∷ newline
      ∷ [])

abbrev pub index_block : Index → Bytes → Bytes
index_block x = add_block (write_create_index dialect_sqlite [] x false)

abbrev pub trigger_block : Trigger → Bytes → Bytes
trigger_block x = add_block (x.sql ++ newline)

-- the triggers of the destination, or else those of the source
abbrev pub kept_triggers : List Trigger → List Trigger → List Trigger
kept_triggers [] old = old
kept_triggers (x ∷ xs) old = x ∷ xs

unfoldable pub copy_table : SqliteAlterTable → Bytes → Bytes
copy_table a buf =
    each_write trigger_block (kept_triggers a.dest_table.triggers a.src_table.triggers) (
      each_write index_block a.dest_table.indexes (
        texts (
          buf
          ∷ write_create_table dialect_sqlite [] [] (new_table a.dest_table) true
          ∷ insert_select a
          ∷ swap_tables a
          ∷ [])))

abbrev pub drop_table_block : Table → Bytes → Bytes
drop_table_block t =
    add_block (texts (codes "DROP TABLE " ∷ quoted t.table_name ∷ codes ";" ∷ newline ∷ []))

unfoldable pub create_table_blocks : Table → Bytes → Bytes
create_table_blocks t buf =
    each_write index_block t.indexes
      (add_block (write_create_table dialect_sqlite [] [] t true) buf)

abbrev pub drop_index_block : Index → Bytes → Bytes
drop_index_block x =
    add_block (texts (codes "DROP INDEX " ∷ quoted x.index_name ∷ codes ";" ∷ newline ∷ []))

abbrev pub drop_column_block : Bytes → Column → Bytes → Bytes
drop_column_block table x = add_block (
    texts (
      codes "ALTER TABLE "
      ∷ table
      ∷ codes " DROP COLUMN "
      ∷ quoted x.column_name
      ∷ codes ";"
      ∷ newline
      ∷ []))

abbrev pub add_column_block : Bytes → Column → Bytes → Bytes
add_column_block table x = add_block (
    texts (
      codes "ALTER TABLE "
      ∷ table
      ∷ codes " ADD COLUMN "
      ∷ write_column_definition dialect_sqlite [] x true
      ∷ codes ";"
      ∷ newline
      ∷ []))

unfoldable pub alter_in_place : SqliteAlterTable → Bytes → Bytes
alter_in_place a buf =
    let table = quoted a.dest_table.table_name in
    each_write index_block a.create_indexes (
      each_write (add_column_block table) a.add_columns (
        each_write (drop_column_block table) a.drop_columns
          (each_write drop_index_block a.drop_indexes buf)))

unfoldable pub alter_table_blocks : SqliteAlterTable × Bool → Bytes → Bytes
alter_table_blocks (a, copied) buf =
    if copied then copy_table a (add_block [] buf) else alter_in_place a buf

-- PRAGMA legacy_alter_table, around everything if a table is copied
unfoldable pub pragma : Bool → Bytes → Bytes → Bytes
pragma copied state buf =
    if copied
    then add_block (texts (codes "PRAGMA legacy_alter_table = " ∷ state ∷ codes ";" ∷ newline ∷ []))
        buf
    else buf

unfoldable pub sqlite_buf : SqliteMigration → List (SqliteAlterTable × Bool) → Bytes
sqlite_buf m alterations =
    let copied = has_copied alterations in
    pragma copied (codes "OFF") (
      each_write alter_table_blocks alterations (
        each_write create_table_blocks m.create_tables
          (each_write drop_table_block m.drop_tables (pragma copied (codes "ON") []))))

unfoldable pub sqlite_sql : SqliteMigration → Bytes → Outcome MigrationFiles
sqlite_sql m prefix = do
  alterations ← with_copied m.alter_tables
  let buf = sqlite_buf m alterations
  ret (record {
    filenames = if is_given buf then (prefix ++ codes ".sql") ∷ [] else [];
    bufs = buf ∷ [];
    warnings = [];
  })
