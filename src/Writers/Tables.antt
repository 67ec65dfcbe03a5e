-- ===== src/Writers/Tables.antt =====
-- ddl/dump_cmd.go: writeCreateSchema and writeCreateTable.
use sqddl.Base.{
  Bool, true, false, not, ◌&&◌, ◌||◌, List, [], ◌∷◌, ◌++◌, if◌then◌else◌, Bytes, codes, text_eq,
}
use sqddl.Catalog.{
  Table, Column, Constraint, primary_key, foreign_key, dialect_sqlite, dialect_postgres,
  dialect_mysql, dialect_sqlserver,
}
use sqddl.Sql.Quote.{quote_identifier, escape_quote}
use sqddl.Writers.Pieces.{texts, when, is_given, qualified, newline}
use sqddl.Writers.Columns.{write_column_definition}
use sqddl.Writers.Constraints.{write_constraint_definition}

unfoldable pub write_create_schema : Bytes → Bytes → Bytes
write_create_schema dialect name =
    if text_eq dialect dialect_postgres || text_eq dialect dialect_mysql
    then texts (
        codes "CREATE SCHEMA IF NOT EXISTS "
        ∷ quote_identifier dialect name
        ∷ codes ";"
        ∷ newline
        ∷ [])
    else when (text_eq dialect dialect_sqlserver) (
        texts (
          codes "IF SCHEMA_ID('"
          ∷ escape_quote name 39
          ∷ codes "') IS NULL EXEC('CREATE SCHEMA "
          ∷ escape_quote (quote_identifier dialect name) 39
          ∷ codes "');"
          ∷ newline
          ∷ []))

abbrev pub item_start : Bytes
item_start = newline ++ codes "    "

abbrev pub item_comma : Bytes
item_comma = newline ++ codes "    ,"

abbrev pub first_constraint : Bytes
first_constraint = newline ++ item_comma

-- a column that CREATE TABLE leaves out
unfoldable pub is_left_out : Column → Bool
is_left_out x = x.ignore || (x.is_generated && not (is_given x.generated_expr))

-- The loop over the columns: `sep` is what the next one starts with.
unfoldable pub write_columns : Bytes → Bytes → Bytes → List Column → Bytes
write_columns dialect collation sep [] = []
write_columns dialect collation sep (x ∷ xs) =
    when (not (is_left_out x)) (sep ++ write_column_definition dialect collation x false)
    ++ write_columns dialect collation (if is_left_out x then sep else item_comma) xs

-- The loop over the constraints that `skipped` does not pass over.
unfoldable pub write_constraints :
    (Constraint → Bool) → Bytes → Bytes → Bytes → List Constraint → Bytes
write_constraints skipped dialect current sep [] = []
write_constraints skipped dialect current sep (x ∷ xs) =
    when (not (skipped x)) (sep ++ write_constraint_definition dialect current x)
    ++ write_constraints skipped dialect current (if skipped x then sep else item_comma) xs

abbrev pub is_single : List Bytes → Bool
is_single (c ∷ []) = true
is_single _ = false

-- SQLite: the primary key of one column stands with the column
unfoldable pub is_skipped_on_sqlite : Constraint → Bool
is_skipped_on_sqlite x = x.ignore || (text_eq x.constraint_type primary_key && is_single x.columns)

unfoldable pub is_skipped : Constraint → Bool
is_skipped x = x.ignore || text_eq x.constraint_type foreign_key

-- the first primary key that is not ignored
unfoldable pub write_only_pkey : Bytes → Bytes → List Constraint → Bytes
write_only_pkey dialect current [] = []
write_only_pkey dialect current (x ∷ xs) =
    if text_eq x.constraint_type primary_key && not x.ignore
    then first_constraint ++ write_constraint_definition dialect current x
    else write_only_pkey dialect current xs

unfoldable pub write_table_constraints : Bytes → Bytes → Table → Bool → Bytes
write_table_constraints dialect current t include =
    if text_eq dialect dialect_sqlite
    then write_constraints is_skipped_on_sqlite dialect current first_constraint t.constraints
    else if include
    then write_constraints is_skipped dialect current first_constraint t.constraints
    else when (text_eq dialect dialect_mysql || text_eq dialect dialect_sqlserver)
        (write_only_pkey dialect current t.constraints)

unfoldable pub write_create_table : Bytes → Bytes → Bytes → Table → Bool → Bytes
write_create_table dialect current collation t include =
    if is_given t.sql
    then t.sql ++ newline
    else texts (
        codes "CREATE TABLE "
        ∷ qualified dialect current t.table_schema t.table_name
        ∷ codes " ("
        ∷ write_columns dialect collation item_start t.columns
        ∷ write_table_constraints dialect current t include
        ∷ newline
        ∷ codes ");"
        ∷ newline
        ∷ [])
