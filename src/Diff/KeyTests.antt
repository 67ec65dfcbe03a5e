-- ===== src/Diff/KeyTests.antt =====
-- Runs of the migrations of MySQL and Postgres, of the groups of foreign keys, and the theorems on
-- them at concrete values.
pub mod Sqlserver
pub mod Total
use sqddl.Base.{
  true, false, List, [], ◌∷◌, ◌≡◌, ◌≢◌, refl, length, Bytes, codes, text_eq, contains, span,
  has_prefix, has_suffix, trim_suffix, trim_space, trim_start, drop_prefix,
}
use sqddl.Cache.Build.{
  each, index_from, visit_view, name_constraint, visit_constraint, visit_table, visit_schema,
  new_catalog_cache,
}
use sqddl.Cache.Constraints.{
  get_constraint, register_kind, get_primary_key, get_foreign_keys, keep_live, live_keys,
}
use sqddl.Cache.Maps.{key_eq, lookup, put}
use sqddl.Cache.Schemas.{get_schema, get_table}
use sqddl.Cache.Slots.{ret, check_item, check_position, get}
use sqddl.Cache.Tables.{get_column, get_index}
use sqddl.Catalog.{
  Catalog, Table, Column, Constraint, zero_column, zero_constraint, zero_table, zero_schema,
  dialect_mysql, dialect_postgres, primary_key, foreign_key,
}
use sqddl.Diff.Written.{mysql_sql-postgres_sql}
use sqddl.Diff.Files.{
  MigrationFiles, add_block, each_write, each_file, put_name, put_buf, underlined, file_label,
}
use sqddl.Diff.Groups.{
  text_gt, pair_id, tables_id, FkeyGroups, no_groups, append_at, place_fkey, group_fkey,
}
use sqddl.Cache.Maps.{Key}
use sqddl.Diff.Groups.Collected.{group_of, having, group_fkey-IsGrouped}
use sqddl.Diff.Groups.Grouped.{IsGrouped}
use sqddl.Diff.Groups.Pairs.{pair_id_comm}
use sqddl.Diff.Lookups.{
  find_schema, find_table, find_column, find_constraint, find_index, missing, compared,
}
use sqddl.Diff.Mysql
use sqddl.Diff.Mysql.Safe as MysqlSafe
use sqddl.Diff.Mysql.Sql as MysqlSql
use sqddl.Diff.Postgres
use sqddl.Diff.Postgres.Safe as PostgresSafe
use sqddl.Diff.Postgres.Sql as PostgresSql
use sqddl.Diff.Steps.{
  each_step, find_foreign_keys, find_primary_key, only, types_differ, columns_differ,
}
use sqddl.Helpers.Brackets.{to_upper, wrap_brackets, wrapped_in_brackets, ends_in}
use sqddl.Helpers.ColumnTypes.{
  cut_last, without_spaces, split_type_args, close_type, open_type, split_type, postgres_type,
  mysql_type, mysql_signed, dialect_type, normalize_column_type, before_cast, is_now,
  normalize_default, normalize_column_default,
}
use sqddl.Helpers.Numbers.{digits, two_digits}
use sqddl.Sql.Quote.{
  passes, doubles, written, escape_from, all_simple, is_odd, is_among, is_keyword, needs_quoting,
  open_quote, close_quote, quote_identifier,
}
use sqddl.Writers.Columns.{
  is_generated_on_sqlserver, write_type, write_autoincrement, write_collation, write_generated,
  write_deferrable, write_rules, write_references, write_column_definition,
}
use sqddl.Writers.Pieces.{newline, texts, qualified}

runs : Unit {0}
unfolding key_eq lookup put check_item check_position get get_schema get_table get_column get_index
    get_constraint get_primary_key get_foreign_keys keep_live live_keys register_kind each
    index_from visit_view name_constraint visit_constraint visit_table visit_schema
    new_catalog_cache text_eq contains span has_prefix has_suffix trim_suffix trim_space trim_start
    drop_prefix find_schema find_table find_column find_constraint find_index missing compared
    each_step find_foreign_keys find_primary_key only types_differ columns_differ to_upper
    wrap_brackets wrapped_in_brackets ends_in cut_last without_spaces split_type_args close_type
    open_type split_type postgres_type mysql_type mysql_signed dialect_type normalize_column_type
    before_cast is_now normalize_default normalize_column_default digits two_digits passes doubles
    written escape_from all_simple is_odd is_among is_keyword needs_quoting open_quote close_quote
    quote_identifier add_block each_write each_file put_name put_buf underlined file_label text_gt
    pair_id append_at place_fkey group_fkey qualified is_generated_on_sqlserver write_type
    write_autoincrement write_collation write_generated write_deferrable write_rules
    write_references write_column_definition
runs = tt

mysql_runs : Unit {0}
unfolding runs Mysql.join_zero Mysql.add_mysql_key Mysql.replace_mysql_pkey
    Mysql.mysql_constraint_step Mysql.is_mysql_change Mysql.add_mysql_alteration
    Mysql.with_mysql_keys Mysql.alter_mysql_table Mysql.create_mysql_table
    Mysql.create_unless_ignored Mysql.drop_mysql_table Mysql.drop_unless_found Mysql.drop_table_step
    Mysql.create_or_alter Mysql.table_step Mysql.create_or_diff_schema Mysql.schema_step
    Mysql.drop_fkeys_step Mysql.drop_schema_unless_found Mysql.drop_schema_step
    Mysql.new_mysql_migration MysqlSql.drop_fkey_file MysqlSql.add_fkey_file MysqlSql.schemas_undo
    MysqlSql.schema_files MysqlSql.tables_undo MysqlSql.table_files MysqlSql.write_items
    MysqlSql.alter_text MysqlSql.alter_file MysqlSql.warn_step MysqlSql.alter_step
    MysqlSql.mysql_sql MysqlSql.type_warning MysqlSql.limit_warning
mysql_runs = tt

postgres_runs : Unit {0}
unfolding runs Postgres.add_postgres_key Postgres.alter_postgres_key Postgres.not_null_columns
    Postgres.is_postgres_change Postgres.add_postgres_alteration Postgres.with_postgres_keys
    Postgres.postgres_constraint_step Postgres.replaced_pkey Postgres.alter_postgres_table
    Postgres.create_postgres_table Postgres.create_unless_ignored Postgres.drop_table_fkeys
    Postgres.drop_unless_found Postgres.drop_table_step Postgres.create_or_alter Postgres.table_step
    Postgres.create_or_diff_schema Postgres.schema_step Postgres.drop_fkeys_step
    Postgres.drop_schema_unless_found Postgres.drop_schema_step Postgres.new_postgres_migration
    PostgresSql.fkeys_label PostgresSql.drop_fkeys_step PostgresSql.add_fast_fkeys_step
    PostgresSql.add_fkeys_step PostgresSql.schema_files PostgresSql.table_files
    PostgresSql.alter_step PostgresSql.postgres_sql PostgresSql.alter_buf PostgresSql.alter_file
    PostgresSql.concurrent_files PostgresSql.validate_file PostgresSql.add_column_warnings
postgres_runs = tt

abbrev id_column : Bytes → Column
id_column table = record zero_column {
  table_schema = codes "app";
  table_name = table;
  column_name = codes "id";
  column_type = codes "INT";
}

abbrev fkey_of : Bytes → Bytes → Bytes → Constraint
fkey_of table name other = record zero_constraint {
  table_schema = codes "app";
  table_name = table;
  constraint_name = name;
  constraint_type = foreign_key;
  columns = codes "id" ∷ [];
  references_schema = codes "app";
  references_table = other;
  references_columns = codes "id" ∷ [];
}

abbrev pkey_of : Bytes → Constraint
pkey_of columns = record zero_constraint {
  table_schema = codes "app";
  table_name = codes "a";
  constraint_name = codes "PRIMARY";
  constraint_type = primary_key;
  columns = columns ∷ [];
}

abbrev table_of : Bytes → List Constraint → Table
table_of name constraints = record zero_table {
  table_schema = codes "app";
  table_name = name;
  columns = id_column name ∷ [];
  constraints = constraints;
}

abbrev catalog_of : Bytes → List Table → Catalog
catalog_of dialect tables = record {
  dialect = dialect;
  version_nums = 16 ∷ [];
  catalog_name = [];
  current_schema = codes "app";
  default_collation = [];
  default_collation_valid = false;
  extensions = [];
  extensions_valid = false;
  schemas = record zero_schema { schema_name = codes "app"; tables = tables } ∷ [];
}

abbrev a_to_b : Constraint
a_to_b = fkey_of (codes "a") (codes "a_fk") (codes "b")

abbrev b_to_a : Constraint
b_to_a = fkey_of (codes "b") (codes "b_fk") (codes "a")

-- two tables that refer to one another, and what is left when the references go
abbrev linked : Bytes → Catalog
linked dialect =
    catalog_of dialect
      (table_of (codes "a") (a_to_b ∷ []) ∷ table_of (codes "b") (b_to_a ∷ []) ∷ [])

abbrev loose : Bytes → Catalog
loose dialect = catalog_of dialect (table_of (codes "a") [] ∷ table_of (codes "b") [] ∷ [])

-- Both keys are in the group of the first, and table a is altered to drop the key of table b.
wrong_table_test :
    PostgresSql.postgres_sql
      (record (Postgres.start_postgres (linked dialect_postgres)) {
        drop_fkeys = record {
          groups = (a_to_b ∷ b_to_a ∷ []) ∷ [];
          positions = (tables_id a_to_b, 0) ∷ [];
        };
      })
      (codes "m")
    ≡ ret (record {
      filenames = codes "m_01_drop_a_b_fkeys.tx.sql" ∷ [];
      bufs =
          texts (
            codes "ALTER TABLE a DROP CONSTRAINT IF EXISTS a_fk;"
            ∷ newline
            ∷ newline
            ∷ codes "ALTER TABLE a DROP CONSTRAINT IF EXISTS b_fk;"
            ∷ newline
            ∷ [])
          ∷ [];
      warnings = [];
    })
unfolding postgres_runs
wrong_table_test = refl

wrong_group_test :
    Postgres.new_postgres_migration (linked dialect_postgres) (loose dialect_postgres) true
    ≡ ret (record (Postgres.start_postgres (linked dialect_postgres)) {
      drop_fkeys = record {
        groups = (a_to_b ∷ b_to_a ∷ []) ∷ [];
        positions = (tables_id a_to_b, 0) ∷ [];
      };
    })
unfolding postgres_runs
wrong_group_test = refl

-- Across schemas the two directions can have different identities.
cross_schema_test :
    pair_id (codes "s") (codes "t") (codes "u") (codes "a")
    ≢ pair_id (codes "u") (codes "a") (codes "s") (codes "t")
unfolding postgres_runs
cross_schema_test e = absurd (cc e)

group_fkey-IsGrouped_example :
    (g : FkeyGroups) × (each_step group_fkey (a_to_b ∷ b_to_a ∷ []) no_groups ≡ ret g)
    × IsGrouped g
    × ((k : Key) → group_of g k ≡ having k (a_to_b ∷ b_to_a ∷ []))
group_fkey-IsGrouped_example = group_fkey-IsGrouped (a_to_b ∷ b_to_a ∷ [])

pair_id_comm_example :
    pair_id (codes "app") (codes "a") (codes "app") (codes "b")
    ≡ pair_id (codes "app") (codes "b") (codes "app") (codes "a")
pair_id_comm_example = pair_id_comm (codes "app") (codes "a") (codes "b")

abbrev keyed : Bytes → Bytes → Catalog
keyed dialect column = catalog_of dialect (table_of (codes "a") (pkey_of column ∷ []) ∷ [])

-- MySQL: the primary key moves to another column, and a table is left out of the destination.
abbrev rekeyed : Mysql.MysqlMigration
rekeyed = record (Mysql.start_mysql (keyed dialect_mysql (codes "id"))) {
  alter_tables =
      record {
        table_schema = codes "app";
        table_name = codes "a";
        drop_constraints = pkey_of (codes "id") ∷ [];
        drop_indexes = [];
        drop_columns = [];
        add_columns = [];
        alter_columns = [];
        create_indexes = [];
        add_constraints = pkey_of (codes "no") ∷ [];
      }
      ∷ [];
}

rekeyed_test :
    Mysql.new_mysql_migration
      (keyed dialect_mysql (codes "id"))
      (keyed dialect_mysql (codes "no"))
      false
    ≡ ret rekeyed
unfolding mysql_runs
rekeyed_test = refl

new_mysql_migration-additive_example : MysqlSafe.OnlyAdds rekeyed
new_mysql_migration-additive_example =
    MysqlSafe.new_mysql_migration-additive (keyed dialect_mysql (codes "id"))
      (keyed dialect_mysql (codes "no")) rekeyed rekeyed_test

-- Postgres: the references are added, and a table that is in the source alone stays.
abbrev linking : Postgres.PostgresMigration
linking = record (Postgres.start_postgres (loose dialect_postgres)) {
  add_fkeys = record {
    groups = (a_to_b ∷ b_to_a ∷ []) ∷ [];
    positions = (tables_id a_to_b, 0) ∷ [];
  };
}

linking_test :
    Postgres.new_postgres_migration (loose dialect_postgres) (linked dialect_postgres) false
    ≡ ret linking
unfolding postgres_runs
linking_test = refl

new_postgres_migration-additive_example : PostgresSafe.OnlyAdds linking
new_postgres_migration-additive_example =
    PostgresSafe.new_postgres_migration-additive (loose dialect_postgres) (linked dialect_postgres)
      linking linking_test

abbrev dropping : Mysql.MysqlMigration
dropping = record (Mysql.start_mysql (linked dialect_mysql)) { drop_fkeys = a_to_b ∷ [] }

abbrev dropping_files : MigrationFiles
dropping_files = record {
  filenames = codes "m_01_drop_a_fk.sql" ∷ [];
  bufs = texts (codes "ALTER TABLE a DROP CONSTRAINT a_fk;" ∷ newline ∷ []) ∷ [];
  warnings = [];
}

dropping_test : MysqlSql.mysql_sql dropping (codes "m") ≡ ret dropping_files
unfolding mysql_runs
dropping_test = refl

abbrev new_table : Postgres.PostgresMigration
new_table = record (Postgres.start_postgres (loose dialect_postgres)) {
  drop_schemas = codes "old" ∷ [];
}

abbrev new_table_files : MigrationFiles
new_table_files = record {
  filenames = codes "m_01_schemas.sql" ∷ [];
  bufs = texts (codes "DROP SCHEMA IF EXISTS old CASCADE;" ∷ newline ∷ []) ∷ [];
  warnings = [];
}

new_table_test : PostgresSql.postgres_sql new_table (codes "m") ≡ ret new_table_files
unfolding postgres_runs
new_table_test = refl

abbrev grouped : Postgres.PostgresMigration
grouped = record new_table { drop_fkeys = record { groups = (a_to_b ∷ []) ∷ []; positions = [] } }

mysql_sql-postgres_sql_example :
    (files : MigrationFiles) × (others : MigrationFiles) × (MysqlSql.mysql_sql dropping (codes "m")
      ≡ ret files)
    × (PostgresSql.postgres_sql grouped (codes "m") ≡ ret others)
    × (length files.filenames ≡ length files.bufs)
    × (length others.filenames ≡ length others.bufs)
mysql_sql-postgres_sql_example =
    mysql_sql-postgres_sql dropping grouped (codes "m") tt tt
      (record { drops = (tt, tt); fast = tt; adds = tt })
