-- ===== src/Diff/Sqlserver.antt =====
-- ddl/sqlserver_migration.go: the migration and its alterations. The maps of positions, which are
-- variables of newSQLServerMigration, stand here beside the groups that they belong to.
pub mod Changes
pub mod Columns
pub mod Dependencies
pub mod Remade
pub mod Safe
pub mod Unwritten
pub mod New
pub mod Sql
pub mod Aligned
use sqddl.Base.{ℕ, List, [], Option, if◌then◌else◌, Bytes, codes}
use sqddl.Catalog.{Catalog, Schema, Table, Column, Constraint, Index}
use sqddl.Diff.Groups.{FkeyGroups, no_groups}
use sqddl.Writers.Pieces.{is_given}

-- Of the entries of column_types for one name the last one counts.
pub record SqlserverAlterTable : Type 0 where
  pub table_schema : Bytes
  pub table_name : Bytes
  pub column_types : List (Bytes × Bytes)
  pub pkey : Option Constraint
  pub drop_indexes : List Index
  pub drop_constraints : List Constraint
  pub drop_columns : List Column
  pub add_columns : List Column
  pub alter_columns : List (Column × Column)
  pub create_indexes : List Index
  pub add_constraints : List Constraint

pub record SqlserverMigration : Type 0 where
  pub version_nums : List ℕ
  pub current_schema : Bytes
  pub default_collation : Bytes
  pub warnings : List Bytes
  pub drop_fkeys : FkeyGroups
  pub drop_schemas : List Schema
  pub create_schemas : List Bytes
  pub drop_tables : List Table
  pub create_tables : List Table
  pub alter_tables : List SqlserverAlterTable
  pub add_fast_fkeys : FkeyGroups
  pub add_fkeys : FkeyGroups

abbrev pub start_sqlserver : Catalog → SqlserverMigration
start_sqlserver src = record {
  version_nums = src.version_nums;
  current_schema = src.current_schema;
  default_collation = src.default_collation;
  warnings = [];
  drop_fkeys = no_groups;
  drop_schemas = [];
  create_schemas = [];
  drop_tables = [];
  create_tables = [];
  alter_tables = [];
  add_fast_fkeys = no_groups;
  add_fkeys = no_groups;
}

-- the schema of the table that is altered
unfoldable pub schema_or_dbo : Bytes → Bytes → Bytes
schema_or_dbo current schema =
    if is_given schema then schema else if is_given current then current else codes "dbo"
