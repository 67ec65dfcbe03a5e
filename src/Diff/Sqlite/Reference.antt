-- ===== src/Diff/Sqlite/Reference.antt =====
-- What a SQLite migration is, said without caches: by the first live object of a name.
use sqddl.Base.{Bool, true, false, List, [], ◌∷◌, Option, none, some, if◌then◌else◌, map}
use sqddl.Cache.Constraints.{constraint_ignored, constraint_name}
use sqddl.Cache.Tables.{column_ignored, column_name, index_ignored, index_name}
use sqddl.Catalog.{Catalog, Schema, Table, Column, Constraint, Index}
use sqddl.Diff.Reference.{
  table_named, column_named, constraint_named, index_named, unfound, sorted_out,
}
use sqddl.Diff.Sqlite.{
  SqliteAlterTable, SqliteMigration, no_migration, real_tables, named_schema, is_passed_over,
  sqlite_columns_differ, add_alteration,
}

-- the columns to add and to alter
abbrev pub sqlite_columns : Table → Table → List Column × List (Column × Column)
sqlite_columns src dest =
    sorted_out column_ignored (λ x. column_named src (column_name x)) sqlite_columns_differ
      dest.columns

abbrev pub lost_columns : Table → Table → List Column
lost_columns src dest = unfound column_ignored (λ x. column_named dest (column_name x)) src.columns

abbrev pub lost_constraints : Table → Table → List Constraint
lost_constraints src dest =
    unfound constraint_ignored (λ x. constraint_named dest (constraint_name x)) src.constraints

abbrev pub lost_indexes : Table → Table → List Index
lost_indexes src dest = unfound index_ignored (λ x. index_named dest (index_name x)) src.indexes

-- What is lost on the way back is new.
abbrev pub sqlite_alteration : Table → Table → SqliteAlterTable
sqlite_alteration src dest = record {
  src_table = src;
  dest_table = dest;
  drop_indexes = lost_indexes src dest;
  drop_constraints = lost_constraints src dest;
  drop_columns = lost_columns src dest;
  add_columns = (sqlite_columns src dest).0;
  alter_columns = (sqlite_columns src dest).1;
  add_constraints = lost_constraints dest src;
  create_indexes = lost_indexes dest src;
  column_is_dropped = map (λ x. x.column_name) (lost_columns src dest);
  column_is_added = map (λ x. x.column_name) (sqlite_columns src dest).0;
}

module _ (src : Schema) (drop_objects : Bool) where
  abbrev pub put_placed :
      Table → List Table × List SqliteAlterTable → Option Table → List Table × List SqliteAlterTable
  put_placed t rest none = (t ∷ rest.0, rest.1)
  put_placed t rest (some old) =
      (rest.0, add_alteration drop_objects (sqlite_alteration old t) rest.1)

  unfoldable pub placed_tables : List Table → List Table × List SqliteAlterTable
  placed_tables [] = ([], [])
  placed_tables (t ∷ ts) =
      if is_passed_over t
      then placed_tables ts
      else put_placed t (placed_tables ts) (table_named src t.table_name)

abbrev pub lost_tables : Schema → Schema → Bool → List Table
lost_tables src dest false = []
lost_tables src dest true = unfound is_passed_over (λ t. table_named dest t.table_name) src.tables

abbrev pub sqlite_difference : Schema → Schema → Bool → SqliteMigration
sqlite_difference src dest drop_objects = record {
  drop_tables = lost_tables src dest drop_objects;
  create_tables = (placed_tables src drop_objects dest.tables).0;
  alter_tables = (placed_tables src drop_objects dest.tables).1;
}

unfoldable pub difference_of : Bool → List Schema → List Schema → SqliteMigration
difference_of drop_objects [] [] = no_migration
difference_of drop_objects (s ∷ ss) [] = record no_migration {
  drop_tables = if drop_objects then real_tables s.tables else [];
}
difference_of drop_objects [] (d ∷ ds) = record no_migration {
  create_tables = real_tables d.tables;
}
difference_of drop_objects (s ∷ ss) (d ∷ ds) =
    sqlite_difference (named_schema s) (named_schema d) drop_objects

unfoldable pub reference_migration : Catalog → Catalog → Bool → SqliteMigration
reference_migration src dest drop_objects = difference_of drop_objects src.schemas dest.schemas
