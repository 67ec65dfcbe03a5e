-- ===== src/Diff/KeyTests/Sqlserver.antt =====
-- Runs of the migration of SQL Server, and the theorems on it at concrete values.
use sqddl.Base.{true, false, List, [], ◌∷◌, none, some, ◌≡◌, refl, Bytes, codes}
use sqddl.Cache.Slots.{ret, panic}
use sqddl.Catalog.{Catalog, Column, Index, zero_index, dialect_sqlserver}
use sqddl.Diff.KeyTests.{runs, id_column, fkey_of, table_of, catalog_of, a_to_b, b_to_a}
use sqddl.Base.{length}
use sqddl.Cache.Slots.{Outcome}
use sqddl.Diff.Files.{MigrationFiles}
use sqddl.Diff.Sqlserver.Aligned.{AreTypedInSqlserver, sqlserver_sql-Returns}
use sqddl.Diff.Yields.{Returns, Yields-of}
use sqddl.Helpers.ColumnTypes.{normalize_column_type}
use sqddl.Diff.Sqlserver.{SqlserverMigration, start_sqlserver, schema_or_dbo}
use sqddl.Diff.Sqlserver.Changes.{
  new_collation, nullability, retype_warning, alter_type, drop_default, replace_default,
  alter_default, alter_sqlserver_column,
}
use sqddl.Diff.Sqlserver.Columns.{
  warned_table, identity_warning, put_column_type, put_altered_column, place_sqlserver_column,
  sqlserver_column_step,
}
use sqddl.Diff.Sqlserver.Dependencies.{
  marked, mark_lost, lost, mark_at, repeated, dependents, regroup_drop, group_at, set_group,
  regroup_add, remake_fkey, remake_constraint, remake_indexes, remake_dependents,
}
use sqddl.Diff.Sqlserver.New
use sqddl.Diff.Sqlserver.Safe.{OnlyAdds, new_sqlserver_migration-additive}
use sqddl.Diff.Sqlserver.Sql
use sqddl.Diff.Sqlserver.Unwritten.{alter_sqlserver_column-unwritten}
use sqddl.Diff.Steps.{sqlserver_columns_differ}
use sqddl.Helpers.ColumnTypes.{sqlserver_type}

sqlserver_runs : Unit {0}
unfolding runs schema_or_dbo new_collation nullability retype_warning alter_type drop_default
    replace_default alter_default alter_sqlserver_column warned_table identity_warning
    put_column_type put_altered_column place_sqlserver_column sqlserver_column_step marked mark_lost
    lost mark_at repeated dependents regroup_drop group_at set_group regroup_add remake_fkey
    remake_constraint remake_indexes remake_dependents sqlserver_columns_differ New.put_pkey
    New.place_sqlserver_constraint New.other_pkey New.is_sqlserver_change
    New.add_sqlserver_alteration New.with_sqlserver_changes New.sqlserver_constraint_step
    New.replaced_pkey_at New.alter_sqlserver_table New.create_sqlserver_table
    New.create_unless_ignored New.drop_table_fkeys New.drop_unless_found New.drop_table_step
    New.create_or_alter New.table_step New.create_or_diff_schema New.schema_step New.drop_fkeys_step
    New.drop_schema_unless_found New.drop_schema_step New.new_sqlserver_migration Sql.label
    sqlserver_type Sql.tables_name Sql.fkeys_step Sql.drop_schema_buf Sql.drop_schema_file
    Sql.create_schemas_file Sql.create_table_blocks Sql.table_files Sql.alter_buf
    Sql.create_index_file Sql.add_constraint_file Sql.alter_file Sql.alter_step Sql.sqlserver_sql
sqlserver_runs = tt

-- a column that becomes not null
abbrev id_not_null : Column
id_not_null = record (id_column (codes "a")) { is_not_null = true }

alter_sqlserver_column-unwritten_example :
    (sqlserver_columns_differ dialect_sqlserver [] (id_column (codes "a")) id_not_null ≡ ret true)
    × (alter_sqlserver_column []
          (codes "a")
          (codes "app")
          (codes "a")
          []
          (id_column (codes "a"))
          id_not_null
          ([], [])
        ≡ ret ([], []))
unfolding sqlserver_runs
alter_sqlserver_column-unwritten_example =
    alter_sqlserver_column-unwritten [] (codes "a") (codes "app") (codes "a") []
      (id_column (codes "a")) id_not_null ([], []) refl refl refl refl refl refl refl

-- an index on two columns, of the type given
abbrev both_index : Index
both_index = record zero_index {
  table_schema = codes "app";
  table_name = codes "a";
  index_name = codes "a_idx";
  columns = codes "id" ∷ codes "no" ∷ [];
}

abbrev pair_of : Bytes → List Column
pair_of type =
    record (id_column (codes "a")) { column_type = type }
    ∷ record (id_column (codes "a")) { column_type = type; column_name = codes "no" }
    ∷ []

abbrev indexed : Bytes → Catalog
indexed type =
    catalog_of dialect_sqlserver
      (record (table_of (codes "a") []) { columns = pair_of type; indexes = both_index ∷ [] } ∷ [])

-- The index stands on both columns, and is dropped and made again twice.
abbrev twice : SqlserverMigration
twice = record (start_sqlserver (indexed (codes "INT"))) {
  alter_tables =
      record {
        table_schema = codes "app";
        table_name = codes "a";
        column_types = (codes "id", codes "BIGINT") ∷ (codes "no", codes "BIGINT") ∷ [];
        pkey = none;
        drop_indexes = both_index ∷ both_index ∷ [];
        drop_constraints = [];
        drop_columns = [];
        add_columns = [];
        alter_columns =
            (
              record (id_column (codes "a")) { column_type = codes "INT" },
              record (id_column (codes "a")) { column_type = codes "BIGINT" },
            )
            ∷ (
              record (id_column (codes "a")) {
                column_type = codes "INT";
                column_name = codes "no";
              },
              record (id_column (codes "a")) {
                column_type = codes "BIGINT";
                column_name = codes "no";
              },
            )
            ∷ [];
        create_indexes = both_index ∷ both_index ∷ [];
        add_constraints = [];
      }
      ∷ [];
}

twice_test :
    New.new_sqlserver_migration (indexed (codes "INT")) (indexed (codes "BIGINT")) false ≡ ret twice
unfolding sqlserver_runs
twice_test = refl

new_sqlserver_migration-additive_example : OnlyAdds twice
new_sqlserver_migration-additive_example =
    new_sqlserver_migration-additive (indexed (codes "INT")) (indexed (codes "BIGINT")) twice
      twice_test

-- what a sql method returns, and nothing for a panic
abbrev files_of : Outcome MigrationFiles → MigrationFiles
files_of (ret files) = files
files_of panic = record { filenames = []; bufs = []; warnings = [] }

abbrev twice_files : MigrationFiles
twice_files = files_of (Sql.sqlserver_sql twice (codes "m"))

three_files_test : length twice_files.filenames ≡ 3
unfolding sqlserver_runs
three_files_test = refl

int_typed : Returns (normalize_column_type dialect_sqlserver (codes "INT"))
unfolding sqlserver_runs
int_typed = Yields-of (λ a. Unit) _ _ refl tt

bigint_typed : Returns (normalize_column_type dialect_sqlserver (codes "BIGINT"))
unfolding sqlserver_runs
bigint_typed = Yields-of (λ a. Unit) _ _ refl tt

twice_typed : AreTypedInSqlserver twice.alter_tables
twice_typed = (
  (
    (record { normalizes = int_typed }, record { normalizes = bigint_typed }),
    ((record { normalizes = int_typed }, record { normalizes = bigint_typed }), tt),
  ),
  tt,
)

sqlserver_sql-Returns_example :
    (files : MigrationFiles) × (Sql.sqlserver_sql twice (codes "m") ≡ ret files)
    × (length files.filenames ≡ length files.bufs)
sqlserver_sql-Returns_example = sqlserver_sql-Returns twice (codes "m") twice_typed tt tt tt

-- A key whose group is there already: the group is lost, or there is no such group of fast keys.
wrong_slice_test :
    (regroup_add
        ((b_to_a ∷ []) ∷ [])
        a_to_b
        (record {
          groups = (fkey_of (codes "a") (codes "x") (codes "b") ∷ []) ∷ [];
          positions = [];
        })
        (some 0)
      ≡ ret (record { groups = (b_to_a ∷ a_to_b ∷ []) ∷ []; positions = [] }))
    × (regroup_add [] a_to_b
          (record {
            groups = (fkey_of (codes "a") (codes "x") (codes "b") ∷ []) ∷ [];
            positions = [];
          })
          (some 0)
        ≡ panic)
unfolding sqlserver_runs
wrong_slice_test = (refl, refl)
