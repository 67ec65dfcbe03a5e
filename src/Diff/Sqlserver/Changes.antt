-- ===== src/Diff/Sqlserver/Changes.antt =====
-- ddl/sqlserver_migration.go: the method sql, on one column that is altered.
use sqddl.Base.{Bool, not, ◌&&◌, ◌||◌, List, [], ◌∷◌, ◌++◌, if◌then◌else◌, Bytes, codes, text_eq}
use sqddl.Cache.Slots.{Outcome, ret, ◌>>=◌}
use sqddl.Catalog.{Column, dialect_sqlserver}
use sqddl.Diff.Files.{add_block}
use sqddl.Diff.Steps.{types_differ}
use sqddl.Helpers.ColumnTypes.{normalize_column_default}
use sqddl.Helpers.Numbers.{go_quote}
use sqddl.Sql.Quote.{quote_identifier, escape_quote, is_among}
use sqddl.Writers.Pieces.{texts, when, newline, is_given, is_foreign}

-- the collation to write, or nothing
unfoldable pub new_collation : Bytes → Column → Bytes
new_collation default_collation x =
    when (is_foreign x.collation_name default_collation) (escape_quote x.collation_name b'[')

-- NOT NULL, NULL or nothing. The second test asks for a column that becomes nullable, so the test
-- inside it always fails.
unfoldable pub nullability : List Bytes → Column → Column → Bytes
nullability pkey old x =
    if is_among pkey x.column_name || is_given x.column_identity
    then codes "NOT NULL"
    else if old.is_not_null && not x.is_not_null
    then (if x.is_not_null then codes "NOT NULL" else codes "NULL")
    else []

-- `table` is the table's quoted name, `schema` and `name` are those of the alteration
module _ (default_collation table schema name : Bytes) (pkey : List Bytes) (old x : Column) where
  abbrev pub column : Bytes
  column = quote_identifier dialect_sqlserver x.column_name

  unfoldable pub retype_warning : Bool → List Bytes
  retype_warning retyped =
      if retyped
      then texts (
          table
          ∷ codes ": column "
          ∷ column
          ∷ codes " changing type from "
          ∷ go_quote old.column_type
          ∷ codes " to "
          ∷ go_quote x.column_type
          ∷ codes " may be unsafe"
          ∷ [])
        ∷ []
      else []

  unfoldable pub alter_type : Bool → Bytes → Bytes
  alter_type retyped buf =
      let collation = new_collation default_collation x in
      let null = nullability pkey old x in
      if retyped || (is_given collation || is_given null)
      then add_block
          (texts (
            codes "ALTER TABLE "
            ∷ table
            ∷ codes " ALTER COLUMN "
            ∷ column
            ∷ codes " "
            ∷ x.column_type
            ∷ when (is_given collation) (codes " COLLATE " ++ collation)
            ∷ when (is_given null) (codes " " ++ null)
            ∷ codes ";"
            ∷ newline
            ∷ []))
          buf
      else buf

  -- looks the constraint of the default up by the names of schema, table and column
  unfoldable pub drop_default : Bytes
  drop_default = texts (
      codes "BEGIN"
      ∷ newline
      ∷ codes "    DECLARE @name NVARCHAR(255);"
      ∷ newline
      ∷ codes "    SELECT"
      ∷ newline
      ∷ codes "        @name = default_constraints.name"
      ∷ newline
      ∷ codes "    FROM"
      ∷ newline
      ∷ codes "        sys.default_constraints"
      ∷ newline
      ∷ codes "        JOIN sys.tables ON tables.object_id = default_constraints.parent_object_id"
      ∷ newline
      ∷ codes "        JOIN sys.columns ON columns.column_id = default_constraints.parent_column_id"
      ∷ newline
      ∷ codes "    WHERE"
      ∷ newline
      ∷ codes "        SCHEMA_NAME(tables.schema_id) = '"
      ∷ escape_quote schema 39
      ∷ codes "'"
      ∷ newline
      ∷ codes "        AND tables.name = '"
      ∷ escape_quote name 39
      ∷ codes "'"
      ∷ newline
      ∷ codes "        AND columns.name = '"
      ∷ escape_quote x.column_name 39
      ∷ codes "'"
      ∷ newline
      ∷ codes "    ;"
      ∷ newline
      ∷ codes "    EXEC('ALTER TABLE "
      ∷ escape_quote table 39
      ∷ codes " DROP CONSTRAINT ' + @name);"
      ∷ newline
      ∷ codes "END;"
      ∷ newline
      ∷ [])

  unfoldable pub replace_default : Bytes → Bytes → Bytes → Bytes
  replace_default from to buf =
      let dropped = if is_given from then add_block drop_default buf else buf in
      if is_given to
      then add_block
          (texts (
            codes "ALTER TABLE "
            ∷ table
            ∷ codes " ADD DEFAULT "
            ∷ to
            ∷ codes " FOR "
            ∷ column
            ∷ codes ";"
            ∷ newline
            ∷ []))
          dropped
      else dropped

  unfoldable pub alter_default : Bytes → Bytes
  alter_default buf =
      let from = normalize_column_default dialect_sqlserver old.column_default in
      let to = normalize_column_default dialect_sqlserver x.column_default in
      if text_eq from to then buf else replace_default from to buf

  -- the buffer and the warnings after the column
  unfoldable pub alter_sqlserver_column : Bytes × List Bytes → Outcome (Bytes × List Bytes)
  alter_sqlserver_column w = do
    retyped ← types_differ dialect_sqlserver old x
    ret (alter_default (alter_type retyped w.0), w.1 ++ retype_warning retyped)
