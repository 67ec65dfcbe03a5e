-- ===== src/Diff/Sqlite.antt =====
-- ddl/sqlite_migration.go: newSQLiteMigration. The constraint names that it generates are written to
-- the catalogs of its caller; here `named_catalog` is such a catalog.
pub mod Sql
pub mod Reference
pub mod Refines
pub mod Same
pub mod Additive
pub mod Copied
use sqddl.Base.{
  Bool, true, false, not, ◌&&◌, ◌||◌, List, [], ◌∷◌, ◌++◌, Option, none, some, if◌then◌else◌, map,
  Bytes, text_eq,
}
use sqddl.Cache.Build.{new_catalog_cache}
use sqddl.Cache.Constraints.{constraint_ignored}
use sqddl.Cache.Schemas.{table_ignored}
use sqddl.Cache.Slots.{Outcome, ret, ◌>>=◌}
use sqddl.Cache.State.{CatalogCache}
use sqddl.Cache.Tables.{column_ignored, index_ignored}
use sqddl.Catalog.{
  Catalog, Schema, Table, Column, Constraint, Index, primary_key, unique, foreign_key,
  dialect_sqlite,
}
use sqddl.Diff.Lookups.{
  find_table, find_column, find_constraint, find_index, missing, compared, has_any,
  is_virtual_table,
}
use sqddl.Helpers.ColumnTypes.{normalize_column_default}
use sqddl.Helpers.Names.{generate_name}

-- The sets columnIsDropped and columnIsAdded are the lists of the names that are true in them.
pub record SqliteAlterTable : Type 0 where
  pub src_table : Table
  pub dest_table : Table
  pub drop_indexes : List Index
  pub drop_constraints : List Constraint
  pub drop_columns : List Column
  pub add_columns : List Column
  pub alter_columns : List (Column × Column)
  pub add_constraints : List Constraint
  pub create_indexes : List Index
  pub column_is_dropped : List Bytes
  pub column_is_added : List Bytes

pub record SqliteMigration : Type 0 where
  pub drop_tables : List Table
  pub create_tables : List Table
  pub alter_tables : List SqliteAlterTable

abbrev pub no_migration : SqliteMigration
no_migration = record { drop_tables = []; create_tables = []; alter_tables = [] }

unfoldable pub real_tables : List Table → List Table
real_tables [] = []
real_tables (t ∷ ts) = if is_virtual_table t then real_tables ts else t ∷ real_tables ts

abbrev pub is_named_by_columns : Constraint → Bool
is_named_by_columns x =
    text_eq x.constraint_type primary_key
    || (text_eq x.constraint_type unique || text_eq x.constraint_type foreign_key)

unfoldable pub named_constraint : Constraint → Constraint
named_constraint x =
    if is_named_by_columns x
    then record x { constraint_name = generate_name x.constraint_type x.table_name x.columns }
    else x

unfoldable pub named_table : Table → Table
named_table t =
    if is_virtual_table t then t else record t { constraints = map named_constraint t.constraints }

abbrev pub named_schema : Schema → Schema
named_schema s = record s { tables = map named_table s.tables }

unfoldable pub named_catalog : Catalog → Catalog
named_catalog catalog = record catalog { schemas = map named_schema catalog.schemas }

abbrev pub is_passed_over : Table → Bool
is_passed_over t = table_ignored t || is_virtual_table t

unfoldable pub sqlite_columns_differ : Column → Column → Bool
sqlite_columns_differ old new =
    not (text_eq old.column_type new.column_type)
    || (not (
          text_eq (normalize_column_default dialect_sqlite old.column_default)
            (normalize_column_default dialect_sqlite new.column_default))
        || (if old.is_not_null then not new.is_not_null else new.is_not_null))

-- what the table of the source needs to become that of the destination
unfoldable pub diff_sqlite_table :
    CatalogCache → CatalogCache → Table → Table → Outcome SqliteAlterTable
diff_sqlite_table src_cache dest_cache src dest = do
  drop_constraints ←
      missing constraint_ignored (λ x. find_constraint dest_cache dest x.constraint_name)
        src.constraints
  drop_indexes ← missing index_ignored (λ x. find_index dest_cache dest x.index_name) src.indexes
  drop_columns ← missing column_ignored (λ x. find_column dest_cache dest x.column_name) src.columns
  columns ←
      compared column_ignored (λ x. find_column src_cache src x.column_name)
        (λ old new. ret (sqlite_columns_differ old new)) dest.columns
  create_indexes ← missing index_ignored (λ x. find_index src_cache src x.index_name) dest.indexes
  add_constraints ←
      missing constraint_ignored (λ x. find_constraint src_cache src x.constraint_name)
        dest.constraints
  ret (record {
    src_table = src;
    dest_table = dest;
    drop_indexes = drop_indexes;
    drop_constraints = drop_constraints;
    drop_columns = drop_columns;
    add_columns = columns.0;
    alter_columns = columns.1;
    add_constraints = add_constraints;
    create_indexes = create_indexes;
    column_is_dropped = map (λ x. x.column_name) drop_columns;
    column_is_added = map (λ x. x.column_name) columns.0;
  })

-- the test in front of the append: it does not ask for the columns to drop
unfoldable pub is_worth_altering : SqliteAlterTable → Bool
is_worth_altering a =
    has_any a.drop_constraints
    || (has_any a.drop_indexes
        || (has_any a.add_columns
            || (has_any a.alter_columns
                || (has_any a.create_indexes || has_any a.add_constraints))))

unfoldable pub only_additions : SqliteAlterTable → SqliteAlterTable
only_additions a = record a {
  drop_indexes = [];
  drop_constraints = [];
  drop_columns = [];
  alter_columns = [];
  add_constraints = [];
}

unfoldable pub add_alteration :
    Bool → SqliteAlterTable → List SqliteAlterTable → List SqliteAlterTable
add_alteration drop_objects a rest =
    if is_worth_altering a
    then (if drop_objects
        then a ∷ rest
        else if has_any a.add_columns || has_any a.create_indexes
        then only_additions a ∷ rest
        else rest)
    else rest

-- The loop over the destination's tables: those to create and those to alter.
module _ (src_cache dest_cache : CatalogCache) (src : Schema) (drop_objects : Bool) where
  unfoldable pub place_table :
      Table
      → List Table × List SqliteAlterTable
      → Option Table
      → Outcome (List Table × List SqliteAlterTable)
  place_table t rest none = ret (t ∷ rest.0, rest.1)
  place_table t rest (some old) = do
    a ← diff_sqlite_table src_cache dest_cache old t
    ret (rest.0, add_alteration drop_objects a rest.1)

  unfoldable pub diff_sqlite_tables : List Table → Outcome (List Table × List SqliteAlterTable)
  diff_sqlite_tables [] = ret ([], [])
  diff_sqlite_tables (t ∷ ts) =
      let rest = diff_sqlite_tables ts in
      if is_passed_over t then rest else do
        found ← find_table src_cache src t.table_name
        others ← rest
        place_table t others found

unfoldable pub dropped_tables : CatalogCache → Schema → Schema → Bool → Outcome (List Table)
dropped_tables dest_cache src dest false = ret []
dropped_tables dest_cache src dest true =
    missing is_passed_over (λ t. find_table dest_cache dest t.table_name) src.tables

unfoldable pub diff_sqlite_schemas :
    CatalogCache → CatalogCache → Schema → Schema → Bool → Outcome SqliteMigration
diff_sqlite_schemas src_cache dest_cache src dest drop_objects = do
  drop_tables ← dropped_tables dest_cache src dest drop_objects
  placed ← diff_sqlite_tables src_cache dest_cache src drop_objects dest.tables
  ret (record { drop_tables = drop_tables; create_tables = placed.0; alter_tables = placed.1 })

-- by the schemas of the source and of the destination, of which only the first counts
unfoldable pub sqlite_migration_of :
    Catalog → Catalog → Bool → List Schema → List Schema → Outcome SqliteMigration
sqlite_migration_of src dest drop_objects [] [] = ret no_migration
sqlite_migration_of src dest drop_objects (s ∷ ss) [] =
    ret (record no_migration { drop_tables = if drop_objects then real_tables s.tables else [] })
sqlite_migration_of src dest drop_objects [] (d ∷ ds) =
    ret (record no_migration { create_tables = real_tables d.tables })
sqlite_migration_of src dest drop_objects (s ∷ ss) (d ∷ ds) =
    diff_sqlite_schemas (new_catalog_cache (named_catalog src))
      (new_catalog_cache (named_catalog dest)) (named_schema s) (named_schema d) drop_objects

unfoldable pub new_sqlite_migration : Catalog → Catalog → Bool → Outcome SqliteMigration
new_sqlite_migration src dest drop_objects =
    sqlite_migration_of src dest drop_objects src.schemas dest.schemas
