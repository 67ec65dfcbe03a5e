-- ===== src/Cache/Write.antt =====
-- ddl/catalog_cache.go: WriteCatalog. A copy of a slice or a map is the same value; an owner that the
-- code changes through a pointer is put back at its position.
pub mod Copied
use sqddl.Base.{List, [], ◌∷◌, Option, none, some, get_elem?, set}
use sqddl.Cache.Build.{new_catalog_cache}
use sqddl.Cache.Constraints.{get_or_create_constraint}
use sqddl.Cache.Routines.{get_or_create_routine}
use sqddl.Cache.Schemas.{
  get_or_create_schema, get_or_create_enum, get_or_create_domain, get_or_create_view,
  get_or_create_table,
}
use sqddl.Cache.Slots.{Outcome, ret, panic, ◌>>=◌}
use sqddl.Cache.State.{CatalogCache}
use sqddl.Cache.Tables.{get_or_create_column, get_or_create_index, get_or_create_trigger}
use sqddl.Cache.Views.{get_or_create_view_index, get_or_create_view_trigger}
use sqddl.Catalog.{
  Catalog, Schema, Enum, Domain, Routine, View, Table, Column, Constraint, Index, Trigger,
}

-- the cache, and the owner whose objects are written
abbrev pub Writing : Type 0 → Type 0
Writing S = CatalogCache × S

-- for x in xs { ... }
unfoldable pub copy_each {ℓ} :
    {A : Type ℓ} {S : Type 0}
    → (A → Writing S → Outcome (Writing S))
    → List A
    → Writing S
    → Outcome (Writing S)
copy_each copy [] w = ret w
copy_each copy (x ∷ xs) w = do next ← copy x w; copy_each copy xs next

-- what a pointer to position `i` points to
abbrev pub item_of : {A : Type 0} → Option A → Outcome A
item_of none = panic
item_of (some a) = ret a

unfoldable pub copy_enum : Enum → Writing Schema → Outcome (Writing Schema)
copy_enum x w = do
  (c, s, i) ← get_or_create_enum w.0 w.1 x.enum_name
  ret (c, record s { enums = set s.enums i x })

unfoldable pub copy_domain : Domain → Writing Schema → Outcome (Writing Schema)
copy_domain x w = do
  (c, s, i) ← get_or_create_domain w.0 w.1 x.domain_name
  ret (c, record s { domains = set s.domains i x })

unfoldable pub copy_routine : Routine → Writing Schema → Outcome (Writing Schema)
copy_routine x w = do
  (c, s, i) ← get_or_create_routine w.0 w.1 x.routine_name x.identity_arguments
  ret (c, record s { routines = set s.routines i x })

unfoldable pub copy_view_index : Index → Writing View → Outcome (Writing View)
copy_view_index x w = do
  (c, v, i) ← get_or_create_view_index w.0 w.1 x.index_name x.columns
  ret (c, record v { indexes = set v.indexes i x })

unfoldable pub copy_view_trigger : Trigger → Writing View → Outcome (Writing View)
copy_view_trigger x w = do
  (c, v, i) ← get_or_create_view_trigger w.0 w.1 x.trigger_name
  ret (c, record v { triggers = set v.triggers i x })

-- all fields but the indexes and triggers
unfoldable pub copy_view_fields : View → View → View
copy_view_fields x v = record x { indexes = v.indexes; triggers = v.triggers }

unfoldable pub copy_view : View → Writing Schema → Outcome (Writing Schema)
copy_view x w = do
  (c, s, i) ← get_or_create_view w.0 w.1 x.view_name
  v ← item_of (get_elem? s.views i)
  indexed ← copy_each copy_view_index x.indexes (c, copy_view_fields x v)
  done ← copy_each copy_view_trigger x.triggers indexed
  ret (done.0, record s { views = set s.views i done.1 })

unfoldable pub copy_column : Column → Writing Table → Outcome (Writing Table)
copy_column x w = do
  (c, t, i) ← get_or_create_column w.0 w.1 x.column_name x.column_type
  ret (c, record t { columns = set t.columns i x })

unfoldable pub copy_constraint : Constraint → Writing Table → Outcome (Writing Table)
copy_constraint x w = do
  (c, t, i) ← get_or_create_constraint w.0 w.1 x.constraint_name x.constraint_type x.columns
  ret (c, record t { constraints = set t.constraints i x })

unfoldable pub copy_index : Index → Writing Table → Outcome (Writing Table)
copy_index x w = do
  (c, t, i) ← get_or_create_index w.0 w.1 x.index_name x.columns
  ret (c, record t { indexes = set t.indexes i x })

unfoldable pub copy_trigger : Trigger → Writing Table → Outcome (Writing Table)
copy_trigger x w = do
  (c, t, i) ← get_or_create_trigger w.0 w.1 x.trigger_name
  ret (c, record t { triggers = set t.triggers i x })

-- the fields that are copied: is_virtual is not one of them
unfoldable pub copy_table_fields : Table → Table → Table
copy_table_fields x t = record t {
  table_schema = x.table_schema;
  table_name = x.table_name;
  sql = x.sql;
  comment = x.comment;
  ignore = x.ignore;
}

unfoldable pub copy_source_table : Table → Writing Schema → Outcome (Writing Schema)
copy_source_table x w = do
  (c, s, i) ← get_or_create_table w.0 w.1 x.table_name
  t ← item_of (get_elem? s.tables i)
  columned ← copy_each copy_column x.columns (c, copy_table_fields x t)
  constrained ← copy_each copy_constraint x.constraints columned
  indexed ← copy_each copy_index x.indexes constrained
  done ← copy_each copy_trigger x.triggers indexed
  ret (done.0, record s { tables = set s.tables i done.1 })

unfoldable pub copy_schema_fields : Schema → Schema → Schema
copy_schema_fields x s = record s {
  schema_name = x.schema_name;
  comment = x.comment;
  ignore = x.ignore;
  enums_valid = x.enums_valid;
  domains_valid = x.domains_valid;
  routines_valid = x.routines_valid;
  views_valid = x.views_valid;
}

unfoldable pub copy_schema : Schema → Writing Catalog → Outcome (Writing Catalog)
copy_schema x w = do
  (c, catalog, i) ← get_or_create_schema w.0 w.1 x.schema_name
  s ← item_of (get_elem? catalog.schemas i)
  enums ← copy_each copy_enum x.enums (c, copy_schema_fields x s)
  domains ← copy_each copy_domain x.domains enums
  routines ← copy_each copy_routine x.routines domains
  views ← copy_each copy_view x.views routines
  done ← copy_each copy_source_table x.tables views
  ret (done.0, record catalog { schemas = set catalog.schemas i done.1 })

-- all fields but the schemas
unfoldable pub copy_catalog_fields : Catalog → Catalog → Catalog
copy_catalog_fields src dest = record src { schemas = dest.schemas }

-- the destination after the call
unfoldable pub write_catalog : Catalog → Catalog → Outcome Catalog
write_catalog src dest = do
  done ← copy_each copy_schema src.schemas (new_catalog_cache dest, copy_catalog_fields src dest)
  ret done.1
