-- ===== src/Diff/Mysql.antt =====
-- ddl/mysql_migration.go: newMySQLMigration.
pub mod Sql
pub mod Total
pub mod Same
pub mod Safe
use sqddl.Base.{
  ℕ, Bool, true, false, not, ◌&&◌, ◌||◌, List, [], ◌∷◌, ◌++◌, Option, none, some, if◌then◌else◌,
  Bytes, text_eq,
}
use sqddl.Cache.Build.{new_catalog_cache}
use sqddl.Cache.Constraints.{constraint_ignored}
use sqddl.Cache.Slots.{Outcome, ret, ◌>>=◌}
use sqddl.Cache.State.{CatalogCache}
use sqddl.Cache.Tables.{column_ignored, index_ignored}
use sqddl.Catalog.{Catalog, Schema, Table, Column, Constraint, Index, primary_key, dialect_mysql}
use sqddl.Diff.Lookups.{
  find_schema, find_table, find_column, find_constraint, find_index, missing, compared, has_any,
}
use sqddl.Diff.Steps.{
  each_step, step_if, if_dropping, find_foreign_keys, is_key, is_fkey, only, columns_differ,
}
use sqddl.Writers.Pieces.{is_given}

pub record MysqlAlterTable : Type 0 where
  pub table_schema : Bytes
  pub table_name : Bytes
  pub drop_constraints : List Constraint
  pub drop_indexes : List Index
  pub drop_columns : List Column
  pub add_columns : List Column
  pub alter_columns : List (Column × Column)
  pub create_indexes : List Index
  pub add_constraints : List Constraint

pub record MysqlMigration : Type 0 where
  pub version_nums : List ℕ
  pub current_schema : Bytes
  pub default_collation : Bytes
  pub drop_fkeys : List Constraint
  pub drop_schemas : List Bytes
  pub create_schemas : List Bytes
  pub drop_tables : List Table
  pub create_tables : List Table
  pub alter_tables : List MysqlAlterTable
  pub add_fkeys : List Constraint

abbrev pub start_mysql : Catalog → MysqlMigration
start_mysql src = record {
  version_nums = src.version_nums;
  current_schema = src.current_schema;
  default_collation = src.default_collation;
  drop_fkeys = [];
  drop_schemas = [];
  create_schemas = [];
  drop_tables = [];
  create_tables = [];
  alter_tables = [];
  add_fkeys = [];
}

-- the name, unless it is empty
abbrev pub given_name : Bytes → List Bytes
given_name [] = []
given_name (c ∷ name) = (c ∷ name) ∷ []

-- strings.Join(columns, "\x00")
unfoldable pub join_zero : List Bytes → Bytes
join_zero [] = []
join_zero (c ∷ []) = c
join_zero (c ∷ d ∷ columns) = c ++ 0 ∷ join_zero (d ∷ columns)

-- dropConstraints and addConstraints of a table, and the foreign keys to add
pub record MysqlKeys : Type 0 where
  pub drops : List Constraint
  pub adds : List Constraint
  pub fkeys : List Constraint

unfoldable pub add_mysql_key : Constraint → MysqlKeys → MysqlKeys
add_mysql_key x keys =
    if is_key x
    then record keys { adds = keys.adds ++ x ∷ [] }
    else if is_fkey x
    then record keys { fkeys = keys.fkeys ++ x ∷ [] }
    else keys

-- a primary key is found by the name that all of them have: its columns tell whether it is the same
unfoldable pub replace_mysql_pkey : Constraint → Constraint → MysqlKeys → MysqlKeys
replace_mysql_pkey old x keys =
    if text_eq x.constraint_type primary_key
      && not (text_eq (join_zero old.columns) (join_zero x.columns))
    then record keys { drops = keys.drops ++ old ∷ []; adds = keys.adds ++ x ∷ [] }
    else keys

abbrev pub place_mysql_constraint : Constraint → MysqlKeys → Option Constraint → MysqlKeys
place_mysql_constraint x keys none = add_mysql_key x keys
place_mysql_constraint x keys (some old) = replace_mysql_pkey old x keys

unfoldable pub is_mysql_change : MysqlAlterTable → Bool
is_mysql_change a =
    has_any a.drop_constraints
    || (has_any a.drop_indexes
        || (has_any a.add_columns
            || (has_any a.alter_columns
                || (has_any a.create_indexes || has_any a.add_constraints))))

unfoldable pub add_mysql_alteration : MysqlAlterTable → List MysqlAlterTable → List MysqlAlterTable
add_mysql_alteration a done = if is_mysql_change a then done ++ a ∷ [] else done

-- the alteration of a table, and the foreign keys that go and come with it
unfoldable pub with_mysql_keys :
    List Constraint → List Constraint → MysqlAlterTable → MysqlMigration → MysqlMigration
with_mysql_keys lost fkeys a m = record m {
  drop_fkeys = m.drop_fkeys ++ only is_fkey lost;
  add_fkeys = m.add_fkeys ++ fkeys;
  alter_tables = add_mysql_alteration a m.alter_tables;
}

module _ (src_cache dest_cache : CatalogCache) (drop_objects : Bool) where
  unfoldable pub mysql_constraint_step : Table → Constraint → MysqlKeys → Outcome MysqlKeys
  mysql_constraint_step src x keys = if x.ignore then ret keys else do
    found ← find_constraint src_cache src x.constraint_name
    ret (place_mysql_constraint x keys found)

  -- the columns to add and to alter, and the indexes to create
  abbrev pub mysql_columns :
      Table → Table → MysqlMigration → Outcome (List Column × List (Column × Column))
  mysql_columns src dest m =
      compared column_ignored (λ x. find_column src_cache src x.column_name)
        (columns_differ dialect_mysql m.default_collation) dest.columns

  abbrev pub mysql_new_indexes : Table → Table → Outcome (List Index)
  mysql_new_indexes src dest =
      missing index_ignored (λ x. find_index src_cache src x.index_name) dest.indexes

  unfoldable pub alter_mysql_table : Table → Table → MysqlMigration → Outcome MysqlMigration
  alter_mysql_table src dest m = do
    lost ← if_dropping drop_objects (
        missing constraint_ignored (λ x. find_constraint dest_cache dest x.constraint_name)
          src.constraints)
    lost_indexes ←
        if_dropping drop_objects
          (missing index_ignored (λ x. find_index dest_cache dest x.index_name) src.indexes)
    lost_columns ←
        if_dropping drop_objects
          (missing column_ignored (λ x. find_column dest_cache dest x.column_name) src.columns)
    columns ← mysql_columns src dest m
    create_indexes ← mysql_new_indexes src dest
    keys ←
        each_step (mysql_constraint_step src) dest.constraints
          (record { drops = only is_key lost; adds = []; fkeys = [] })
    ret (
        with_mysql_keys lost keys.fkeys
          (record {
            table_schema = dest.table_schema;
            table_name = dest.table_name;
            drop_constraints = keys.drops;
            drop_indexes = lost_indexes;
            drop_columns = lost_columns;
            add_columns = columns.0;
            alter_columns = columns.1;
            create_indexes = create_indexes;
            add_constraints = keys.adds;
          })
          m)

  -- CREATE TABLE with its foreign keys, unless the table is ignored
  unfoldable pub create_mysql_table : Table → MysqlMigration → Outcome MysqlMigration
  create_mysql_table t m = do
    fkeys ← find_foreign_keys dest_cache t
    ret (record m { create_tables = m.create_tables ++ t ∷ []; add_fkeys = m.add_fkeys ++ fkeys })

  unfoldable pub create_unless_ignored : Table → MysqlMigration → Outcome MysqlMigration
  create_unless_ignored t m = if t.ignore then ret m else create_mysql_table t m

  unfoldable pub drop_mysql_table : Table → MysqlMigration → Outcome MysqlMigration
  drop_mysql_table t m = do
    fkeys ← find_foreign_keys src_cache t
    ret (record m { drop_tables = m.drop_tables ++ t ∷ []; drop_fkeys = m.drop_fkeys ++ fkeys })

  unfoldable pub drop_unless_found : Table → MysqlMigration → Option Table → Outcome MysqlMigration
  drop_unless_found t m none = drop_mysql_table t m
  drop_unless_found t m (some u) = ret m

  unfoldable pub drop_table_step : Schema → Table → MysqlMigration → Outcome MysqlMigration
  drop_table_step dest t m =
      if t.ignore
      then ret m
      else do found ← find_table dest_cache dest t.table_name; drop_unless_found t m found

  unfoldable pub create_or_alter : Table → MysqlMigration → Option Table → Outcome MysqlMigration
  create_or_alter t m none = create_mysql_table t m
  create_or_alter t m (some old) = alter_mysql_table old t m

  unfoldable pub table_step : Schema → Table → MysqlMigration → Outcome MysqlMigration
  table_step src t m =
      if t.ignore
      then ret m
      else do found ← find_table src_cache src t.table_name; create_or_alter t m found

  unfoldable pub create_or_diff_schema :
      Schema → MysqlMigration → Option Schema → Outcome MysqlMigration
  create_or_diff_schema dest m none =
      each_step create_unless_ignored dest.tables
        (record m { create_schemas = m.create_schemas ++ given_name dest.schema_name })
  create_or_diff_schema dest m (some src) = do
    dropped ← step_if drop_objects (each_step (drop_table_step dest) src.tables) m
    each_step (table_step src) dest.tables dropped

  unfoldable pub schema_step : Catalog → Schema → MysqlMigration → Outcome MysqlMigration
  schema_step src dest m =
      if dest.ignore
      then ret m
      else do found ← find_schema src_cache src dest.schema_name; create_or_diff_schema dest m found

  -- the foreign keys of a table of a schema that goes
  unfoldable pub drop_fkeys_step : Table → MysqlMigration → Outcome MysqlMigration
  drop_fkeys_step t m = if t.ignore then ret m else do
    fkeys ← find_foreign_keys src_cache t
    ret (record m { drop_fkeys = m.drop_fkeys ++ fkeys })

  unfoldable pub drop_schema_unless_found :
      Schema → MysqlMigration → Option Schema → Outcome MysqlMigration
  drop_schema_unless_found src m none =
      each_step drop_fkeys_step src.tables
        (record m { drop_schemas = m.drop_schemas ++ given_name src.schema_name })
  drop_schema_unless_found src m (some dest) = ret m

  unfoldable pub drop_schema_step : Catalog → Schema → MysqlMigration → Outcome MysqlMigration
  drop_schema_step dest src m = if src.ignore then ret m else do
    found ← find_schema dest_cache dest src.schema_name
    drop_schema_unless_found src m found

unfoldable pub new_mysql_migration : Catalog → Catalog → Bool → Outcome MysqlMigration
new_mysql_migration src dest drop_objects =
    let src_cache = new_catalog_cache src in
    let dest_cache = new_catalog_cache dest in
    do
      m ←
          step_if drop_objects
            (each_step (drop_schema_step src_cache dest_cache drop_objects dest) src.schemas)
            (start_mysql src)
      each_step (schema_step src_cache dest_cache drop_objects src) dest.schemas m
