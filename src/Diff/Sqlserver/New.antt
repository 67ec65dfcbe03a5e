-- ===== src/Diff/Sqlserver/New.antt =====
-- ddl/sqlserver_migration.go: newSQLServerMigration.
use sqddl.Base.{ℕ, Bool, ◌||◌, List, [], ◌∷◌, ◌++◌, Option, none, some, if◌then◌else◌, text_eq}
use sqddl.Cache.Build.{new_catalog_cache}
use sqddl.Cache.Constraints.{constraint_ignored, get_primary_key}
use sqddl.Cache.Slots.{Outcome, ret, ◌>>=◌}
use sqddl.Cache.Slots.Visible.{at_position}
use sqddl.Cache.State.{CatalogCache}
use sqddl.Cache.Tables.{column_ignored, index_ignored}
use sqddl.Catalog.{Catalog, Schema, Table, Column, Constraint, primary_key}
use sqddl.Diff.Groups.{FkeyGroups, group_fkey}
use sqddl.Diff.Lookups.{
  find_schema, find_table, find_column, find_constraint, find_index, missing, has_any,
}
use sqddl.Diff.Mysql.{given_name}
use sqddl.Diff.Sqlserver.{SqlserverAlterTable, SqlserverMigration, start_sqlserver, schema_or_dbo}
use sqddl.Diff.Sqlserver.Columns.{SqlserverColumns, start_columns, sqlserver_column_step}
use sqddl.Diff.Sqlserver.Dependencies.{
  SqlserverRemakes, mark_lost, lost, mark_at, remake_dependents,
}
use sqddl.Diff.Steps.{each_step, step_if, if_dropping, find_foreign_keys, is_key, is_fkey, only}
use sqddl.Writers.Pieces.{is_given}

-- What the loop over the destination's constraints collects.
pub record SqlserverKeys : Type 0 where
  pub pkey : Option Constraint
  pub adds : List Constraint
  pub fkeys : FkeyGroups

unfoldable pub put_pkey : Constraint → SqlserverKeys → SqlserverKeys
put_pkey x keys =
    if text_eq x.constraint_type primary_key then record keys { pkey = some x } else keys

unfoldable pub place_sqlserver_constraint :
    Constraint → SqlserverKeys → Option Constraint → Outcome SqlserverKeys
place_sqlserver_constraint x keys none =
    if is_key x
    then ret (record keys { adds = keys.adds ++ x ∷ [] })
    else if is_fkey x
    then (do groups ← group_fkey x keys.fkeys; ret (record keys { fkeys = groups }))
    else ret keys
place_sqlserver_constraint x keys (some old) = ret keys

-- the source's primary key and its place, if the destination has one of another name
unfoldable pub other_pkey :
    Option ℕ → Option Constraint → Option Constraint → Option (ℕ × Constraint)
other_pkey (some i) (some old) (some x) =
    if text_eq old.constraint_name x.constraint_name then none else some (i, old)
other_pkey position old x = none

abbrev pub replaced_keys : Option (ℕ × Constraint) → List Constraint
replaced_keys none = []
replaced_keys (some (i, x)) = x ∷ []

abbrev pub mark_replaced :
    Option (ℕ × Constraint) → List (Constraint × Bool) → List (Constraint × Bool)
mark_replaced none marks = marks
mark_replaced (some (i, x)) marks = mark_at i marks

-- the test in front of the append: it does not ask for the columns to drop
unfoldable pub is_sqlserver_change : SqlserverAlterTable → Bool
is_sqlserver_change a =
    has_any a.drop_constraints
    || (has_any a.drop_indexes
        || (has_any a.add_columns
            || (has_any a.alter_columns
                || (has_any a.create_indexes || has_any a.add_constraints))))

unfoldable pub add_sqlserver_alteration :
    SqlserverAlterTable → List SqlserverAlterTable → List SqlserverAlterTable
add_sqlserver_alteration a done = if is_sqlserver_change a then done ++ a ∷ [] else done

-- the alteration of a table, its warnings, and the groups that its foreign keys went to
unfoldable pub with_sqlserver_changes :
    SqlserverRemakes
    → SqlserverColumns
    → Option Constraint
    → List Column
    → Table
    → SqlserverMigration
    → SqlserverMigration
with_sqlserver_changes r columns pkey lost_columns dest m = record m {
  warnings = columns.warnings;
  drop_fkeys = r.drop_fkeys;
  add_fkeys = r.add_fkeys;
  alter_tables =
      add_sqlserver_alteration
        (record {
          table_schema = schema_or_dbo m.current_schema dest.table_schema;
          table_name = dest.table_name;
          column_types = columns.column_types;
          pkey = pkey;
          drop_indexes = r.drop_indexes;
          drop_constraints = r.drop_constraints;
          drop_columns = lost_columns;
          add_columns = columns.adds;
          alter_columns = columns.alters;
          create_indexes = r.create_indexes;
          add_constraints = r.add_constraints;
        })
        m.alter_tables;
}

module _ (src_cache dest_cache : CatalogCache) (drop_objects : Bool) where
  unfoldable pub sqlserver_constraint_step :
      Table → Constraint → SqlserverKeys → Outcome SqlserverKeys
  sqlserver_constraint_step src x keys = if x.ignore then ret keys else do
    found ← find_constraint src_cache src x.constraint_name
    place_sqlserver_constraint x (put_pkey x keys) found

  unfoldable pub replaced_pkey_at : Table → Table → Outcome (Option (ℕ × Constraint))
  replaced_pkey_at src dest = do
    there ← get_primary_key dest_cache (some dest)
    here ← get_primary_key src_cache (some src)
    ret (
        if drop_objects
        then none
        else other_pkey here (at_position src.constraints here)
            (at_position dest.constraints there))

  unfoldable pub alter_sqlserver_table :
      Schema → Table → Table → SqlserverMigration → Outcome SqlserverMigration
  alter_sqlserver_table schema src dest m = do
    constraints ←
        mark_lost drop_objects constraint_ignored
          (λ x. find_constraint dest_cache dest x.constraint_name) src.constraints
    drops ← each_step group_fkey (only is_fkey (lost constraints)) m.drop_fkeys
    indexes ←
        mark_lost drop_objects index_ignored (λ x. find_index dest_cache dest x.index_name)
          src.indexes
    lost_columns ←
        if_dropping drop_objects
          (missing column_ignored (λ x. find_column dest_cache dest x.column_name) src.columns)
    columns ←
        each_step (sqlserver_column_step m schema dest src_cache src) dest.columns
          (start_columns m.warnings)
    new_indexes ← missing index_ignored (λ x. find_index src_cache src x.index_name) dest.indexes
    keys ←
        each_step (sqlserver_constraint_step src) dest.constraints
          (record { pkey = none; adds = []; fkeys = m.add_fkeys })
    replaced ← replaced_pkey_at src dest
    remakes ←
        each_step
          (remake_dependents m.add_fast_fkeys.groups indexes (mark_replaced replaced constraints))
          columns.alters
          (record {
            drop_indexes = lost indexes;
            create_indexes = new_indexes;
            drop_constraints = only is_key (lost constraints) ++ replaced_keys replaced;
            add_constraints = keys.adds;
            drop_fkeys = drops;
            add_fkeys = keys.fkeys;
          })
    ret (with_sqlserver_changes remakes columns keys.pkey lost_columns dest m)

  unfoldable pub create_sqlserver_table : Table → SqlserverMigration → Outcome SqlserverMigration
  create_sqlserver_table t m = do
    fkeys ← find_foreign_keys dest_cache t
    groups ← each_step group_fkey fkeys m.add_fast_fkeys
    ret (record m { create_tables = m.create_tables ++ t ∷ []; add_fast_fkeys = groups })

  unfoldable pub create_unless_ignored : Table → SqlserverMigration → Outcome SqlserverMigration
  create_unless_ignored t m = if t.ignore then ret m else create_sqlserver_table t m

  unfoldable pub drop_table_fkeys : Table → SqlserverMigration → Outcome SqlserverMigration
  drop_table_fkeys t m = do
    fkeys ← find_foreign_keys src_cache t
    groups ← each_step group_fkey fkeys m.drop_fkeys
    ret (record m { drop_fkeys = groups })

  unfoldable pub drop_unless_found :
      Table → SqlserverMigration → Option Table → Outcome SqlserverMigration
  drop_unless_found t m none =
      drop_table_fkeys t (record m { drop_tables = m.drop_tables ++ t ∷ [] })
  drop_unless_found t m (some u) = ret m

  unfoldable pub drop_table_step : Schema → Table → SqlserverMigration → Outcome SqlserverMigration
  drop_table_step dest t m =
      if t.ignore
      then ret m
      else do found ← find_table dest_cache dest t.table_name; drop_unless_found t m found

  unfoldable pub create_or_alter :
      Schema → Table → SqlserverMigration → Option Table → Outcome SqlserverMigration
  create_or_alter schema t m none = create_sqlserver_table t m
  create_or_alter schema t m (some old) = alter_sqlserver_table schema old t m

  unfoldable pub table_step :
      Schema → Schema → Table → SqlserverMigration → Outcome SqlserverMigration
  table_step src dest t m =
      if t.ignore
      then ret m
      else do found ← find_table src_cache src t.table_name; create_or_alter dest t m found

  unfoldable pub create_or_diff_schema :
      Schema → SqlserverMigration → Option Schema → Outcome SqlserverMigration
  create_or_diff_schema dest m none =
      each_step create_unless_ignored dest.tables
        (record m { create_schemas = m.create_schemas ++ given_name dest.schema_name })
  create_or_diff_schema dest m (some src) = do
    dropped ← step_if drop_objects (each_step (drop_table_step dest) src.tables) m
    each_step (table_step src dest) dest.tables dropped

  unfoldable pub schema_step : Catalog → Schema → SqlserverMigration → Outcome SqlserverMigration
  schema_step src dest m =
      if dest.ignore
      then ret m
      else do found ← find_schema src_cache src dest.schema_name; create_or_diff_schema dest m found

  unfoldable pub drop_fkeys_step : Table → SqlserverMigration → Outcome SqlserverMigration
  drop_fkeys_step t m = if t.ignore then ret m else drop_table_fkeys t m

  unfoldable pub drop_schema_unless_found :
      Schema → SqlserverMigration → Option Schema → Outcome SqlserverMigration
  drop_schema_unless_found src m none = each_step drop_fkeys_step src.tables (record m {
    drop_schemas = m.drop_schemas ++ (if is_given src.schema_name then src ∷ [] else []);
  })
  drop_schema_unless_found src m (some dest) = ret m

  unfoldable pub drop_schema_step :
      Catalog → Schema → SqlserverMigration → Outcome SqlserverMigration
  drop_schema_step dest src m = if src.ignore then ret m else do
    found ← find_schema dest_cache dest src.schema_name
    drop_schema_unless_found src m found

unfoldable pub new_sqlserver_migration : Catalog → Catalog → Bool → Outcome SqlserverMigration
new_sqlserver_migration src dest drop_objects =
    let src_cache = new_catalog_cache src in
    let dest_cache = new_catalog_cache dest in
    do
      m ←
          step_if drop_objects
            (each_step (drop_schema_step src_cache dest_cache drop_objects dest) src.schemas)
            (start_sqlserver src)
      each_step (schema_step src_cache dest_cache drop_objects src) dest.schemas m
