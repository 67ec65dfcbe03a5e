-- ===== src/Diff/Postgres.antt =====
-- ddl/postgres_migration.go: newPostgresMigration. The maps of positions, which are its variables,
-- stand here beside the groups that they belong to.
pub mod Changes
pub mod Safe
pub mod Same
pub mod Sql
use sqddl.Base.{
  ℕ, Bool, true, false, not, ◌&&◌, ◌||◌, List, [], ◌∷◌, ◌++◌, Option, none, some, if◌then◌else◌,
  Bytes, text_eq,
}
use sqddl.Cache.Build.{new_catalog_cache}
use sqddl.Cache.Constraints.{constraint_ignored}
use sqddl.Cache.Slots.{Outcome, ret, ◌>>=◌}
use sqddl.Cache.State.{CatalogCache}
use sqddl.Cache.Tables.{column_ignored, index_ignored}
use sqddl.Catalog.{Catalog, Schema, Table, Column, Constraint, Index, primary_key, dialect_postgres}
use sqddl.Diff.Groups.{FkeyGroups, no_groups, group_fkey}
use sqddl.Diff.Lookups.{
  find_schema, find_table, find_column, find_constraint, find_index, missing, compared, has_any,
}
use sqddl.Diff.Steps.{
  each_step, step_if, if_dropping, find_foreign_keys, find_primary_key, is_key, is_fkey, only,
  flags_differ, columns_differ,
}
use sqddl.Helpers.Versions.{lower_than}

pub record PostgresAlterTable : Type 0 where
  pub table_schema : Bytes
  pub table_name : Bytes
  pub drop_indexes : List Index
  pub drop_constraints : List Constraint
  pub drop_columns : List Column
  pub add_columns : List Column
  pub alter_columns : List (Column × Column)
  pub alter_constraints : List (Constraint × Constraint)
  pub validate_not_null : List Column
  pub create_indexes_concurrently : List Index
  pub add_constraints_concurrently : List Constraint

pub record PostgresMigration : Type 0 where
  pub version_nums : List ℕ
  pub current_schema : Bytes
  pub default_collation : Bytes
  pub drop_fkeys : FkeyGroups
  pub drop_schemas : List Bytes
  pub create_schemas : List Bytes
  pub drop_tables : List Table
  pub create_tables : List Table
  pub alter_tables : List PostgresAlterTable
  pub add_fast_fkeys : FkeyGroups
  pub add_fkeys : FkeyGroups

abbrev pub start_postgres : Catalog → PostgresMigration
start_postgres src = record {
  version_nums = src.version_nums;
  current_schema = src.current_schema;
  default_collation = src.default_collation;
  drop_fkeys = no_groups;
  drop_schemas = [];
  create_schemas = [];
  drop_tables = [];
  create_tables = [];
  alter_tables = [];
  add_fast_fkeys = no_groups;
  add_fkeys = no_groups;
}

-- the name, unless it is empty
abbrev pub given_name : Bytes → List Bytes
given_name [] = []
given_name (c ∷ name) = (c ∷ name) ∷ []

-- What the loop over the destination's constraints collects.
pub record PostgresKeys : Type 0 where
  pub adds : List Constraint
  pub alters : List (Constraint × Constraint)
  pub fkeys : FkeyGroups
  pub adding_primary_key : Bool

unfoldable pub add_postgres_key : Constraint → PostgresKeys → Outcome PostgresKeys
add_postgres_key x keys =
    if is_key x
    then ret (record keys {
      adds = keys.adds ++ x ∷ [];
      adding_primary_key = keys.adding_primary_key || text_eq x.constraint_type primary_key;
    })
    else if is_fkey x
    then (do groups ← group_fkey x keys.fkeys; ret (record keys { fkeys = groups }))
    else ret keys

unfoldable pub alter_postgres_key : Constraint → Constraint → PostgresKeys → PostgresKeys
alter_postgres_key old x keys =
    if flags_differ old.is_deferrable x.is_deferrable
      || flags_differ old.is_initially_deferred x.is_initially_deferred
    then record keys { alters = keys.alters ++ (old, x) ∷ [] }
    else keys

abbrev pub place_postgres_constraint :
    Constraint → PostgresKeys → Option Constraint → Outcome PostgresKeys
place_postgres_constraint x keys none = add_postgres_key x keys
place_postgres_constraint x keys (some old) = ret (alter_postgres_key old x keys)

-- the columns that become not null, which Postgres 12 and later validate by a check
unfoldable pub not_null_columns : List ℕ → List (Column × Column) → List Column
not_null_columns version [] = []
not_null_columns version ((old, x) ∷ pairs) =
    if not old.is_not_null && (x.is_not_null && not (lower_than version (12 ∷ [])))
    then x ∷ not_null_columns version pairs
    else not_null_columns version pairs

-- the test in front of the append: it does not ask for the columns to drop
unfoldable pub is_postgres_change : PostgresAlterTable → Bool
is_postgres_change a =
    has_any a.drop_constraints
    || (has_any a.drop_indexes
        || (has_any a.add_columns
            || (has_any a.alter_columns
                || (has_any a.alter_constraints
                    || (has_any a.create_indexes_concurrently
                        || has_any a.add_constraints_concurrently)))))

unfoldable pub add_postgres_alteration :
    PostgresAlterTable → List PostgresAlterTable → List PostgresAlterTable
add_postgres_alteration a done = if is_postgres_change a then done ++ a ∷ [] else done

-- the alteration of a table, and the groups of foreign keys that its constraints went to
unfoldable pub with_postgres_keys :
    FkeyGroups → FkeyGroups → PostgresAlterTable → PostgresMigration → PostgresMigration
with_postgres_keys drops adds a m = record m {
  drop_fkeys = drops;
  add_fkeys = adds;
  alter_tables = add_postgres_alteration a m.alter_tables;
}

-- the primary key, if there is one
abbrev pub found_key : Option Constraint → List Constraint
found_key none = []
found_key (some x) = x ∷ []

module _ (src_cache dest_cache : CatalogCache) (drop_objects : Bool) where
  unfoldable pub postgres_constraint_step : Table → Constraint → PostgresKeys → Outcome PostgresKeys
  postgres_constraint_step src x keys = if x.ignore then ret keys else do
    found ← find_constraint src_cache src x.constraint_name
    place_postgres_constraint x keys found

  abbrev pub postgres_columns :
      Table → Table → PostgresMigration → Outcome (List Column × List (Column × Column))
  postgres_columns src dest m =
      compared column_ignored (λ x. find_column src_cache src x.column_name)
        (columns_differ dialect_postgres m.default_collation) dest.columns

  abbrev pub postgres_new_indexes : Table → Table → Outcome (List Index)
  postgres_new_indexes src dest =
      missing index_ignored (λ x. find_index src_cache src x.index_name) dest.indexes

  -- the primary key that has to make room for a new one
  unfoldable pub replaced_pkey : Table → Bool → Outcome (List Constraint)
  replaced_pkey src adding =
      if adding && not drop_objects
      then (do found ← find_primary_key src_cache src; ret (found_key found))
      else ret []

  unfoldable pub alter_postgres_table :
      Table → Table → PostgresMigration → Outcome PostgresMigration
  alter_postgres_table src dest m = do
    lost ← if_dropping drop_objects (
        missing constraint_ignored (λ x. find_constraint dest_cache dest x.constraint_name)
          src.constraints)
    drops ← each_step group_fkey (only is_fkey lost) m.drop_fkeys
    lost_indexes ←
        if_dropping drop_objects
          (missing index_ignored (λ x. find_index dest_cache dest x.index_name) src.indexes)
    lost_columns ←
        if_dropping drop_objects
          (missing column_ignored (λ x. find_column dest_cache dest x.column_name) src.columns)
    columns ← postgres_columns src dest m
    new_indexes ← postgres_new_indexes src dest
    keys ←
        each_step (postgres_constraint_step src) dest.constraints
          (record { adds = []; alters = []; fkeys = m.add_fkeys; adding_primary_key = false })
    replaced ← replaced_pkey src keys.adding_primary_key
    ret (
        with_postgres_keys drops keys.fkeys
          (record {
            table_schema = dest.table_schema;
            table_name = dest.table_name;
            drop_indexes = lost_indexes;
            drop_constraints = only is_key lost ++ replaced;
            drop_columns = lost_columns;
            add_columns = columns.0;
            alter_columns = columns.1;
            alter_constraints = keys.alters;
            validate_not_null = not_null_columns m.version_nums columns.1;
            create_indexes_concurrently = new_indexes;
            add_constraints_concurrently = keys.adds;
          })
          m)

  unfoldable pub create_postgres_table : Table → PostgresMigration → Outcome PostgresMigration
  create_postgres_table t m = do
    fkeys ← find_foreign_keys dest_cache t
    groups ← each_step group_fkey fkeys m.add_fast_fkeys
    ret (record m { create_tables = m.create_tables ++ t ∷ []; add_fast_fkeys = groups })

  unfoldable pub create_unless_ignored : Table → PostgresMigration → Outcome PostgresMigration
  create_unless_ignored t m = if t.ignore then ret m else create_postgres_table t m

  unfoldable pub drop_table_fkeys : Table → PostgresMigration → Outcome PostgresMigration
  drop_table_fkeys t m = do
    fkeys ← find_foreign_keys src_cache t
    groups ← each_step group_fkey fkeys m.drop_fkeys
    ret (record m { drop_fkeys = groups })

  unfoldable pub drop_unless_found :
      Table → PostgresMigration → Option Table → Outcome PostgresMigration
  drop_unless_found t m none =
      drop_table_fkeys t (record m { drop_tables = m.drop_tables ++ t ∷ [] })
  drop_unless_found t m (some u) = ret m

  unfoldable pub drop_table_step : Schema → Table → PostgresMigration → Outcome PostgresMigration
  drop_table_step dest t m =
      if t.ignore
      then ret m
      else do found ← find_table dest_cache dest t.table_name; drop_unless_found t m found

  unfoldable pub create_or_alter :
      Table → PostgresMigration → Option Table → Outcome PostgresMigration
  create_or_alter t m none = create_postgres_table t m
  create_or_alter t m (some old) = alter_postgres_table old t m

  unfoldable pub table_step : Schema → Table → PostgresMigration → Outcome PostgresMigration
  table_step src t m =
      if t.ignore
      then ret m
      else do found ← find_table src_cache src t.table_name; create_or_alter t m found

  unfoldable pub create_or_diff_schema :
      Schema → PostgresMigration → Option Schema → Outcome PostgresMigration
  create_or_diff_schema dest m none =
      each_step create_unless_ignored dest.tables
        (record m { create_schemas = m.create_schemas ++ given_name dest.schema_name })
  create_or_diff_schema dest m (some src) = do
    dropped ← step_if drop_objects (each_step (drop_table_step dest) src.tables) m
    each_step (table_step src) dest.tables dropped

  unfoldable pub schema_step : Catalog → Schema → PostgresMigration → Outcome PostgresMigration
  schema_step src dest m =
      if dest.ignore
      then ret m
      else do found ← find_schema src_cache src dest.schema_name; create_or_diff_schema dest m found

  unfoldable pub drop_fkeys_step : Table → PostgresMigration → Outcome PostgresMigration
  drop_fkeys_step t m = if t.ignore then ret m else drop_table_fkeys t m

  unfoldable pub drop_schema_unless_found :
      Schema → PostgresMigration → Option Schema → Outcome PostgresMigration
  drop_schema_unless_found src m none =
      each_step drop_fkeys_step src.tables
        (record m { drop_schemas = m.drop_schemas ++ given_name src.schema_name })
  drop_schema_unless_found src m (some dest) = ret m

  unfoldable pub drop_schema_step : Catalog → Schema → PostgresMigration → Outcome PostgresMigration
  drop_schema_step dest src m = if src.ignore then ret m else do
    found ← find_schema dest_cache dest src.schema_name
    drop_schema_unless_found src m found

unfoldable pub new_postgres_migration : Catalog → Catalog → Bool → Outcome PostgresMigration
new_postgres_migration src dest drop_objects =
    let src_cache = new_catalog_cache src in
    let dest_cache = new_catalog_cache dest in
    do
      m ←
          step_if drop_objects
            (each_step (drop_schema_step src_cache dest_cache drop_objects dest) src.schemas)
            (start_postgres src)
      each_step (schema_step src_cache dest_cache drop_objects src) dest.schemas m
