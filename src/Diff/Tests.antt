-- ===== src/Diff/Tests.antt =====
-- Runs of the migrations, and the theorems at concrete catalogs.
use sqddl.Base.{
  if◌then◌else◌, true, false, ◌&&◌, List, [], ◌∷◌, ◌++◌, ◌≡◌, refl, Bytes, codes, text_eq, contains,
  span, has_prefix, has_suffix, trim_suffix, trim_space, trim_start, drop_prefix,
}
use sqddl.Cache.Build.{
  each, index_from, visit_view, name_constraint, visit_constraint, visit_table, visit_schema,
  new_catalog_cache,
}
use sqddl.Cache.Build.Decide.{
  is_well_formed, is_well_formed_sound, has_distinct_parts, has_distinct_tables, has_named,
  all_pass, are_distinct,
}
use sqddl.Cache.Build.WellFormed.{IsWellFormed}
use sqddl.Cache.Constraints.{get_constraint, register_kind}
use sqddl.Cache.Maps.{key_eq, lookup, put}
use sqddl.Cache.Schemas.{get_schema, get_table}
use sqddl.Cache.Slots.{ret, check_item, check_position, get}
use sqddl.Cache.Slots.Named.{live_named}
use sqddl.Cache.Tables.{get_column, get_index}
use sqddl.Catalog.{
  Catalog, Table, Column, Constraint, Index, zero_column, zero_constraint, zero_index, zero_table,
  zero_schema, dialect_sqlite, primary_key,
}
use sqddl.Diff.Files.{add_block, each_write}
use sqddl.Diff.Lookups.{
  find_schema, find_table, find_column, find_constraint, find_index, missing, compared,
  is_virtual_table,
}
use sqddl.Diff.Reference.{unfound, sorted_out}
use sqddl.Diff.Sqlite.{
  SqliteAlterTable, SqliteMigration, no_migration, real_tables, named_constraint, named_table,
  named_catalog, sqlite_columns_differ, diff_sqlite_table, is_worth_altering, only_additions,
  add_alteration, place_table, diff_sqlite_tables, dropped_tables, diff_sqlite_schemas,
  sqlite_migration_of, new_sqlite_migration,
}
use sqddl.Diff.Sqlite.Additive.{OnlyAdds, adding_sql, new_sqlite_migration-additive}
use sqddl.Diff.Sqlite.Copied.{has_plain, has_column, insert_columns_iff}
use sqddl.Diff.Sqlite.Reference.{placed_tables, difference_of, reference_migration}
use sqddl.Diff.Sqlite.Refines.{new_sqlite_migration-reference_migration}
use sqddl.Diff.Sqlite.Same.{new_sqlite_migration-same}
use sqddl.Diff.Sqlite.Sql.{
  forces_copy, any_forces_copy, constraints_force_copy, is_copied, with_copied, has_copied,
  plain_names, names_among, insert_columns, new_table, insert_select, swap_tables, copy_table,
  create_table_blocks, alter_in_place, alter_table_blocks, pragma, sqlite_buf, sqlite_sql,
}
use sqddl.Helpers.Brackets.{to_upper, wrap_brackets, wrapped_in_brackets, ends_in}
use sqddl.Helpers.ColumnTypes.{before_cast, is_now, normalize_default, normalize_column_default}
use sqddl.Helpers.Names.{column_part, name_suffix, capped, generate_name}
use sqddl.Sql.Quote.{
  passes, doubles, written, escape_from, all_simple, is_odd, is_among, is_keyword, needs_quoting,
  open_quote, close_quote, quote_identifier,
}
use sqddl.Writers.Columns.{
  is_generated_on_sqlserver, write_type, write_autoincrement, write_collation, write_generated,
  write_deferrable, write_rules, write_references, write_column_definition,
}
use sqddl.Writers.Constraints.{
  write_referenced_table, write_foreign_key, write_constraint_body, write_constraint_definition,
}
use sqddl.Writers.Indexes.{
  write_index_columns, write_index_kind, write_mysql_method, write_postgres_method,
  is_fulltext_or_spatial, write_index_definition, given_index_sql, write_create_index,
  replace_first,
}
use sqddl.Writers.Pieces.{newline, texts, is_given, qualified, more_names, write_column_names}
use sqddl.Writers.Tables.{
  is_left_out, write_columns, write_constraints, is_skipped, is_skipped_on_sqlite,
  write_table_constraints, write_create_table,
}

migrations : Unit {0}
unfolding is_well_formed has_distinct_parts has_distinct_tables has_named all_pass are_distinct
    live_named unfound sorted_out placed_tables difference_of reference_migration key_eq lookup put
    check_item check_position get get_schema get_table get_column get_index get_constraint
    register_kind each index_from visit_view name_constraint visit_constraint visit_table
    visit_schema new_catalog_cache text_eq contains span has_prefix has_suffix trim_suffix
    trim_space trim_start drop_prefix find_schema find_table find_column find_constraint find_index
    missing compared is_virtual_table real_tables named_constraint named_table named_catalog
    sqlite_columns_differ diff_sqlite_table is_worth_altering only_additions add_alteration
    place_table diff_sqlite_tables dropped_tables diff_sqlite_schemas sqlite_migration_of
    new_sqlite_migration to_upper wrap_brackets wrapped_in_brackets ends_in before_cast is_now
    normalize_default normalize_column_default column_part name_suffix capped generate_name passes
    doubles written escape_from all_simple is_odd is_among is_keyword needs_quoting open_quote
    close_quote quote_identifier add_block each_write
migrations = tt

writing : Unit {0}
unfolding migrations forces_copy any_forces_copy constraints_force_copy is_copied with_copied
    has_copied plain_names names_among insert_columns new_table insert_select swap_tables copy_table
    create_table_blocks alter_in_place alter_table_blocks pragma sqlite_buf sqlite_sql
    is_generated_on_sqlserver write_type write_autoincrement write_collation write_generated
    write_deferrable write_rules write_references write_column_definition write_referenced_table
    write_foreign_key write_constraint_body write_constraint_definition write_index_columns
    write_index_kind write_mysql_method write_postgres_method is_fulltext_or_spatial
    write_index_definition given_index_sql write_create_index replace_first qualified more_names
    write_column_names is_left_out write_columns write_constraints is_skipped is_skipped_on_sqlite
    write_table_constraints write_create_table
writing = tt

abbrev column_of : Bytes → Bytes → Column
column_of name type = record zero_column {
  table_name = codes "users";
  column_name = name;
  column_type = type;
}

abbrev pkey : Constraint
pkey = record zero_constraint {
  table_name = codes "users";
  constraint_type = primary_key;
  columns = codes "id" ∷ [];
}

abbrev users_of : List Column → List Index → Table
users_of columns indexes = record zero_table {
  table_name = codes "users";
  columns = columns;
  constraints = pkey ∷ [];
  indexes = indexes;
}

abbrev catalog_of : List Table → Catalog
catalog_of tables = record {
  dialect = dialect_sqlite;
  version_nums = [];
  catalog_name = [];
  current_schema = [];
  default_collation = [];
  default_collation_valid = false;
  extensions = [];
  extensions_valid = false;
  schemas = record zero_schema { tables = tables } ∷ [];
}

abbrev id_column : Column
id_column = record (column_of (codes "id") (codes "INTEGER")) { is_primary_key = true }

abbrev name_index : Index
name_index = record zero_index {
  table_name = codes "users";
  index_name = codes "users_name_idx";
  columns = codes "name" ∷ [];
}

abbrev old_users : Table
old_users = users_of (id_column ∷ column_of (codes "name") (codes "TEXT") ∷ []) []

abbrev logs : Table
logs = record zero_table { table_name = codes "logs"; columns = id_column ∷ [] }

abbrev posts : Table
posts = record zero_table { table_name = codes "posts"; columns = id_column ∷ [] }

abbrev old_catalog : Catalog
old_catalog = catalog_of (old_users ∷ logs ∷ [])

-- a column and an index more, another table more, and a table less
abbrev new_catalog : Catalog
new_catalog = catalog_of (
    users_of
      (id_column
        ∷ column_of (codes "name") (codes "TEXT")
        ∷ column_of (codes "age") (codes "INT")
        ∷ [])
      (name_index ∷ [])
    ∷ posts
    ∷ [])

old-IsWellFormed : IsWellFormed (named_catalog old_catalog)
unfolding migrations
old-IsWellFormed = is_well_formed_sound (named_catalog old_catalog) refl

new-IsWellFormed : IsWellFormed (named_catalog new_catalog)
unfolding migrations
new-IsWellFormed = is_well_formed_sound (named_catalog new_catalog) refl

new_sqlite_migration-same_example :
    new_sqlite_migration old_catalog old_catalog true ≡ ret no_migration
new_sqlite_migration-same_example = new_sqlite_migration-same old_catalog true old-IsWellFormed

abbrev safe_migration : SqliteMigration
safe_migration = reference_migration old_catalog new_catalog false

new_sqlite_migration-additive_example :
    OnlyAdds safe_migration
    × (sqlite_sql safe_migration (codes "m")
        ≡ ret (record {
          filenames =
              if is_given (adding_sql safe_migration) then (codes "m" ++ codes ".sql") ∷ [] else [];
          bufs = adding_sql safe_migration ∷ [];
          warnings = [];
        }))
new_sqlite_migration-additive_example =
    new_sqlite_migration-additive old_catalog new_catalog safe_migration (codes "m") (
      new_sqlite_migration-reference_migration old_catalog new_catalog false old-IsWellFormed
        new-IsWellFormed)

adding_sql_test :
    adding_sql safe_migration
    ≡ texts (
        codes "CREATE TABLE posts ("
        ∷ newline
        ∷ codes "    id INTEGER PRIMARY KEY"
        ∷ newline
        ∷ codes ");"
        ∷ newline
        ∷ newline
        ∷ codes "ALTER TABLE users ADD COLUMN age INT;"
        ∷ newline
        ∷ newline
        ∷ codes "CREATE INDEX users_name_idx ON users (name);"
        ∷ newline
        ∷ [])
unfolding writing
adding_sql_test = refl

-- the table of the source, with a type changed and a column generated
abbrev altered_users : SqliteAlterTable
altered_users = record {
  src_table = old_users;
  dest_table =
      users_of
        (record id_column { column_type = codes "BIGINT" }
          ∷ record (column_of (codes "name") (codes "TEXT")) { generated_expr = codes "id || ''" }
          ∷ [])
        [];
  drop_indexes = [];
  drop_constraints = [];
  drop_columns = [];
  add_columns = [];
  alter_columns = [];
  add_constraints = [];
  create_indexes = [];
  column_is_dropped = [];
  column_is_added = [];
}

insert_columns_iff_example : is_among (insert_columns altered_users) (codes "name") ≡ (
    has_column (codes "name") old_users.columns
    && has_plain (codes "name") altered_users.dest_table.columns)
insert_columns_iff_example = insert_columns_iff altered_users (codes "name")

insert_columns_test : insert_columns altered_users ≡ codes "id" ∷ []
unfolding writing
insert_columns_test = refl

-- A table that has lost a column and nothing else is not altered, though objects may be dropped.
lost_column_test :
    new_sqlite_migration
      (catalog_of (old_users ∷ []))
      (catalog_of (users_of (id_column ∷ []) [] ∷ []))
      true
    ≡ ret no_migration
unfolding migrations
lost_column_test = refl

-- With no schema in the source, a table is created that is to be ignored.
ignored_table_test :
    new_sqlite_migration
      (record (catalog_of []) { schemas = [] })
      (catalog_of (record posts { ignore = true } ∷ []))
      true
    ≡ ret (record no_migration { create_tables = record posts { ignore = true } ∷ [] })
unfolding migrations
ignored_table_test = refl
