-- ===== src/Diff/Sqlserver/Columns.antt =====
-- ddl/sqlserver_migration.go: the loop over the destination's columns.
use sqddl.Base.{
  Bool, not, ◌&&◌, List, [], ◌∷◌, ◌++◌, Option, none, some, if◌then◌else◌, Bytes, codes,
}
use sqddl.Cache.Slots.{Outcome, ret, ◌>>=◌}
use sqddl.Cache.State.{CatalogCache}
use sqddl.Catalog.{Schema, Table, Column, dialect_sqlserver}
use sqddl.Diff.Lookups.{find_column}
use sqddl.Diff.Sqlserver.{SqlserverMigration}
use sqddl.Diff.Steps.{sqlserver_columns_differ}
use sqddl.Sql.Quote.{quote_identifier}
use sqddl.Writers.Pieces.{texts, is_given, is_foreign}

-- What the loop collects; `warnings` are those of the migration.
pub record SqlserverColumns : Type 0 where
  pub column_types : List (Bytes × Bytes)
  pub adds : List Column
  pub alters : List (Column × Column)
  pub warnings : List Bytes

abbrev pub start_columns : List Bytes → SqlserverColumns
start_columns warnings = record { column_types = []; adds = []; alters = []; warnings = warnings }

-- the table in the warning: with a schema that is not the current one its name is lost
unfoldable pub warned_table : Bytes → Schema → Table → Bytes
warned_table current schema dest =
    if is_foreign schema.schema_name current
    then quote_identifier dialect_sqlserver schema.schema_name ++ codes "."
    else quote_identifier dialect_sqlserver dest.table_name

unfoldable pub identity_warning : Bytes → Schema → Table → Column → Column → List Bytes
identity_warning current schema dest old x =
    if not (is_given old.column_identity) && is_given x.column_identity
    then texts (
        warned_table current schema dest
        ∷ codes ": column "
        ∷ quote_identifier dialect_sqlserver x.column_name
        ∷ codes ": identity cannot be added to an existing column, skipping"
        ∷ [])
      ∷ []
    else []

unfoldable pub put_column_type : Column → SqlserverColumns → SqlserverColumns
put_column_type x cols = record cols {
  column_types = cols.column_types ++ (x.column_name, x.column_type) ∷ [];
}

unfoldable pub put_altered_column : Column → Column → Bool → SqlserverColumns → SqlserverColumns
put_altered_column old x different cols =
    if different then record cols { alters = cols.alters ++ (old, x) ∷ [] } else cols

module _ (m : SqlserverMigration) (schema : Schema) (dest : Table) where
  unfoldable pub place_sqlserver_column :
      Column → SqlserverColumns → Option Column → Outcome SqlserverColumns
  place_sqlserver_column x cols none = ret (record cols { adds = cols.adds ++ x ∷ [] })
  place_sqlserver_column x cols (some old) = do
    different ← sqlserver_columns_differ dialect_sqlserver m.default_collation old x
    ret (
        put_altered_column old x different (record cols {
          warnings = cols.warnings ++ identity_warning m.current_schema schema dest old x;
        }))

  unfoldable pub sqlserver_column_step :
      CatalogCache → Table → Column → SqlserverColumns → Outcome SqlserverColumns
  sqlserver_column_step src_cache src x cols = if x.ignore then ret cols else do
    found ← find_column src_cache src x.column_name
    place_sqlserver_column x (put_column_type x cols) found
