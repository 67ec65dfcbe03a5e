-- ===== src/Catalog.antt =====
-- ddl/ddl.go: the catalog of a database, as nested structs. A slice is a list, where nil and empty
-- are one, and a map is its list of entries. `zero_table` and the like are the zero values of Go.
mod Constants
pub use Constants.*
use sqddl.Base.{ℕ, Bool, true, false, List, [], Bytes}

pub record Enum : Type 0 where
  pub enum_schema : Bytes
  pub enum_name : Bytes
  pub enum_labels : List Bytes
  pub comment : Bytes
  pub ignore : Bool

abbrev pub zero_enum : Enum
zero_enum = record {
  enum_schema = [];
  enum_name = [];
  enum_labels = [];
  comment = [];
  ignore = false;
}

pub record Domain : Type 0 where
  pub domain_schema : Bytes
  pub domain_name : Bytes
  pub underlying_type : Bytes
  pub collation_name : Bytes
  pub is_not_null : Bool
  pub column_default : Bytes
  pub check_names : List Bytes
  pub check_exprs : List Bytes
  pub comment : Bytes
  pub ignore : Bool

abbrev pub zero_domain : Domain
zero_domain = record {
  domain_schema = [];
  domain_name = [];
  underlying_type = [];
  collation_name = [];
  is_not_null = false;
  column_default = [];
  check_names = [];
  check_exprs = [];
  comment = [];
  ignore = false;
}

pub record Routine : Type 0 where
  pub routine_schema : Bytes
  pub routine_name : Bytes
  pub identity_arguments : Bytes
  pub routine_type : Bytes
  pub sql : Bytes
  pub attrs : List (Bytes × Bytes)
  pub comment : Bytes
  pub ignore : Bool

abbrev pub zero_routine : Routine
zero_routine = record {
  routine_schema = [];
  routine_name = [];
  identity_arguments = [];
  routine_type = [];
  sql = [];
  attrs = [];
  comment = [];
  ignore = false;
}

pub record Column : Type 0 where
  pub table_schema : Bytes
  pub table_name : Bytes
  pub column_name : Bytes
  pub column_type : Bytes
  pub character_length : Bytes
  pub numeric_precision : Bytes
  pub numeric_scale : Bytes
  pub domain_name : Bytes
  pub is_enum : Bool
  pub is_not_null : Bool
  pub is_primary_key : Bool
  pub is_unique : Bool
  pub is_autoincrement : Bool
  pub references_schema : Bytes
  pub references_table : Bytes
  pub references_column : Bytes
  pub update_rule : Bytes
  pub delete_rule : Bytes
  pub is_deferrable : Bool
  pub is_initially_deferred : Bool
  pub column_identity : Bytes
  pub column_default : Bytes
  pub on_update_current_timestamp : Bool
  pub is_generated : Bool
  pub generated_expr : Bytes
  pub generated_expr_stored : Bool
  pub collation_name : Bytes
  pub comment : Bytes
  pub ignore : Bool

abbrev pub zero_column : Column
zero_column = record {
  table_schema = [];
  table_name = [];
  column_name = [];
  column_type = [];
  character_length = [];
  numeric_precision = [];
  numeric_scale = [];
  domain_name = [];
  is_enum = false;
  is_not_null = false;
  is_primary_key = false;
  is_unique = false;
  is_autoincrement = false;
  references_schema = [];
  references_table = [];
  references_column = [];
  update_rule = [];
  delete_rule = [];
  is_deferrable = false;
  is_initially_deferred = false;
  column_identity = [];
  column_default = [];
  on_update_current_timestamp = false;
  is_generated = false;
  generated_expr = [];
  generated_expr_stored = false;
  collation_name = [];
  comment = [];
  ignore = false;
}

pub record Constraint : Type 0 where
  pub table_schema : Bytes
  pub table_name : Bytes
  pub constraint_name : Bytes
  pub constraint_type : Bytes
  pub columns : List Bytes
  pub references_schema : Bytes
  pub references_table : Bytes
  pub references_columns : List Bytes
  pub update_rule : Bytes
  pub delete_rule : Bytes
  pub match_option : Bytes
  pub check_expr : Bytes
  pub exclusion_operators : List Bytes
  pub exclusion_index_type : Bytes
  pub exclusion_predicate : Bytes
  pub is_deferrable : Bool
  pub is_initially_deferred : Bool
  pub is_clustered : Bool
  pub is_not_valid : Bool
  pub comment : Bytes
  pub ignore : Bool

abbrev pub zero_constraint : Constraint
zero_constraint = record {
  table_schema = [];
  table_name = [];
  constraint_name = [];
  constraint_type = [];
  columns = [];
  references_schema = [];
  references_table = [];
  references_columns = [];
  update_rule = [];
  delete_rule = [];
  match_option = [];
  check_expr = [];
  exclusion_operators = [];
  exclusion_index_type = [];
  exclusion_predicate = [];
  is_deferrable = false;
  is_initially_deferred = false;
  is_clustered = false;
  is_not_valid = false;
  comment = [];
  ignore = false;
}

pub record Index : Type 0 where
  pub table_schema : Bytes
  pub table_name : Bytes
  pub index_name : Bytes
  pub index_type : Bytes
  pub is_view_index : Bool
  pub is_unique : Bool
  pub columns : List Bytes
  pub include_columns : List Bytes
  pub descending : List Bool
  pub opclasses : List Bytes
  pub predicate : Bytes
  pub sql : Bytes
  pub comment : Bytes
  pub ignore : Bool

abbrev pub zero_index : Index
zero_index = record {
  table_schema = [];
  table_name = [];
  index_name = [];
  index_type = [];
  is_view_index = false;
  is_unique = false;
  columns = [];
  include_columns = [];
  descending = [];
  opclasses = [];
  predicate = [];
  sql = [];
  comment = [];
  ignore = false;
}

pub record Trigger : Type 0 where
  pub table_schema : Bytes
  pub table_name : Bytes
  pub trigger_name : Bytes
  pub is_view_trigger : Bool
  pub sql : Bytes
  pub attrs : List (Bytes × Bytes)
  pub comment : Bytes
  pub ignore : Bool

abbrev pub zero_trigger : Trigger
zero_trigger = record {
  table_schema = [];
  table_name = [];
  trigger_name = [];
  is_view_trigger = false;
  sql = [];
  attrs = [];
  comment = [];
  ignore = false;
}

pub record View : Type 0 where
  pub view_schema : Bytes
  pub view_name : Bytes
  pub is_materialized : Bool
  pub sql : Bytes
  pub columns : List Bytes
  pub column_types : List Bytes
  pub enum_columns : List Bytes
  pub indexes : List Index
  pub triggers : List Trigger
  pub comment : Bytes
  pub ignore : Bool

abbrev pub zero_view : View
zero_view = record {
  view_schema = [];
  view_name = [];
  is_materialized = false;
  sql = [];
  columns = [];
  column_types = [];
  enum_columns = [];
  indexes = [];
  triggers = [];
  comment = [];
  ignore = false;
}

pub record Table : Type 0 where
  pub table_schema : Bytes
  pub table_name : Bytes
  pub sql : Bytes
  pub is_virtual : Bool
  pub columns : List Column
  pub constraints : List Constraint
  pub indexes : List Index
  pub triggers : List Trigger
  pub comment : Bytes
  pub ignore : Bool

abbrev pub zero_table : Table
zero_table = record {
  table_schema = [];
  table_name = [];
  sql = [];
  is_virtual = false;
  columns = [];
  constraints = [];
  indexes = [];
  triggers = [];
  comment = [];
  ignore = false;
}

pub record Schema : Type 0 where
  pub schema_name : Bytes
  pub tables : List Table
  pub views : List View
  pub views_valid : Bool
  pub routines : List Routine
  pub routines_valid : Bool
  pub enums : List Enum
  pub enums_valid : Bool
  pub domains : List Domain
  pub domains_valid : Bool
  pub comment : Bytes
  pub ignore : Bool

abbrev pub zero_schema : Schema
zero_schema = record {
  schema_name = [];
  tables = [];
  views = [];
  views_valid = false;
  routines = [];
  routines_valid = false;
  enums = [];
  enums_valid = false;
  domains = [];
  domains_valid = false;
  comment = [];
  ignore = false;
}

pub record Catalog : Type 0 where
  pub dialect : Bytes
  pub version_nums : List ℕ
  pub catalog_name : Bytes
  pub current_schema : Bytes
  pub default_collation : Bytes
  pub default_collation_valid : Bool
  pub extensions : List Bytes
  pub extensions_valid : Bool
  pub schemas : List Schema
