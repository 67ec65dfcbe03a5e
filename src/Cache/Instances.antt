-- ===== src/Cache/Instances.antt =====
-- The kinds of object of ddl/catalog_cache.go whose operations share one shape.
use sqddl.Base.{some, ◌≡◌, refl, Bytes}
use sqddl.Catalog.{Catalog, Schema, Enum, Domain, View, Table, Column, Index, Trigger}
use sqddl.Cache.Kinds.{Kind}
use sqddl.Cache.Slots.{get}
use sqddl.Cache.State.{CatalogCache}
use sqddl.Cache.Schemas.{
  schema_ignored, schema_name, schema_key, schema_slot, with_schema_slot, get_schema, enum_ignored,
  enum_name, enum_key, enum_slot, with_enum_slot, get_enum, domain_ignored, domain_name, domain_key,
  domain_slot, with_domain_slot, get_domain, view_ignored, view_name, view_key, view_slot,
  with_view_slot, get_view, table_ignored, table_name, table_key, table_slot, with_table_slot,
  get_table,
}
use sqddl.Cache.Tables.{
  column_ignored, column_name, column_key, column_slot, with_column_slot, get_column, index_ignored,
  index_name, index_key, index_slot, with_index_slot, get_index, trigger_ignored, trigger_name,
  trigger_key, trigger_slot, with_trigger_slot, get_trigger,
}
use sqddl.Cache.Views.{
  view_index_ignored, view_index_name, view_index_key, view_index_slot, with_view_index_slot,
  get_view_index, view_trigger_ignored, view_trigger_name, view_trigger_key, view_trigger_slot,
  with_view_trigger_slot, get_view_trigger,
}

pub schema_distinct : (o : Catalog) (n m : Bytes) → schema_key o n ≡ schema_key o m → n ≡ m
schema_distinct o n m e = cc

pub enum_distinct : (o : Schema) (n m : Bytes) → enum_key o n ≡ enum_key o m → n ≡ m
enum_distinct o n m e = cc

pub domain_distinct : (o : Schema) (n m : Bytes) → domain_key o n ≡ domain_key o m → n ≡ m
domain_distinct o n m e = cc

pub view_distinct : (o : Schema) (n m : Bytes) → view_key o n ≡ view_key o m → n ≡ m
view_distinct o n m e = cc

pub table_distinct : (o : Schema) (n m : Bytes) → table_key o n ≡ table_key o m → n ≡ m
table_distinct o n m e = cc

pub column_distinct : (o : Table) (n m : Bytes) → column_key o n ≡ column_key o m → n ≡ m
column_distinct o n m e = cc

pub index_distinct : (o : Table) (n m : Bytes) → index_key o n ≡ index_key o m → n ≡ m
index_distinct o n m e = cc

pub trigger_distinct : (o : Table) (n m : Bytes) → trigger_key o n ≡ trigger_key o m → n ≡ m
trigger_distinct o n m e = cc

pub view_index_distinct : (o : View) (n m : Bytes) → view_index_key o n ≡ view_index_key o m → n ≡ m
view_index_distinct o n m e = cc

pub view_trigger_distinct :
    (o : View) (n m : Bytes) → view_trigger_key o n ≡ view_trigger_key o m → n ≡ m
view_trigger_distinct o n m e = cc

pub get_schema_is :
    (c : CatalogCache) (o : Catalog) (n : Bytes)
    → get_schema c (some o) n ≡ get schema_ignored (schema_key o n) (schema_slot c o)
unfolding get_schema
get_schema_is c o n = refl

pub get_enum_is :
    (c : CatalogCache) (o : Schema) (n : Bytes)
    → get_enum c (some o) n ≡ get enum_ignored (enum_key o n) (enum_slot c o)
unfolding get_enum
get_enum_is c o n = refl

pub get_domain_is :
    (c : CatalogCache) (o : Schema) (n : Bytes)
    → get_domain c (some o) n ≡ get domain_ignored (domain_key o n) (domain_slot c o)
unfolding get_domain
get_domain_is c o n = refl

pub get_view_is :
    (c : CatalogCache) (o : Schema) (n : Bytes)
    → get_view c (some o) n ≡ get view_ignored (view_key o n) (view_slot c o)
unfolding get_view
get_view_is c o n = refl

pub get_table_is :
    (c : CatalogCache) (o : Schema) (n : Bytes)
    → get_table c (some o) n ≡ get table_ignored (table_key o n) (table_slot c o)
unfolding get_table
get_table_is c o n = refl

pub get_column_is :
    (c : CatalogCache) (o : Table) (n : Bytes)
    → get_column c (some o) n ≡ get column_ignored (column_key o n) (column_slot c o)
unfolding get_column
get_column_is c o n = refl

pub get_index_is :
    (c : CatalogCache) (o : Table) (n : Bytes)
    → get_index c (some o) n ≡ get index_ignored (index_key o n) (index_slot c o)
unfolding get_index
get_index_is c o n = refl

pub get_trigger_is :
    (c : CatalogCache) (o : Table) (n : Bytes)
    → get_trigger c (some o) n ≡ get trigger_ignored (trigger_key o n) (trigger_slot c o)
unfolding get_trigger
get_trigger_is c o n = refl

pub get_view_index_is :
    (c : CatalogCache) (o : View) (n : Bytes)
    → get_view_index c (some o) n
      ≡ get view_index_ignored (view_index_key o n) (view_index_slot c o)
unfolding get_view_index
get_view_index_is c o n = refl

pub get_view_trigger_is :
    (c : CatalogCache) (o : View) (n : Bytes)
    → get_view_trigger c (some o) n
      ≡ get view_trigger_ignored (view_trigger_key o n) (view_trigger_slot c o)
unfolding get_view_trigger
get_view_trigger_is c o n = refl

abbrev pub schema_kind : Kind Catalog Schema
schema_kind = record {
  ignored = schema_ignored;
  name = schema_name;
  key = schema_key;
  slot = schema_slot;
  with_slot = with_schema_slot;
  getter = λ c o n. get_schema c (some o) n;
  getter_is = get_schema_is;
  distinct = schema_distinct;
  slot-with_slot = λ c o sl. refl;
  key-with_slot = λ c o sl. refl;
  with_slot-slot = λ c o. refl;
}

abbrev pub enum_kind : Kind Schema Enum
enum_kind = record {
  ignored = enum_ignored;
  name = enum_name;
  key = enum_key;
  slot = enum_slot;
  with_slot = with_enum_slot;
  getter = λ c o n. get_enum c (some o) n;
  getter_is = get_enum_is;
  distinct = enum_distinct;
  slot-with_slot = λ c o sl. refl;
  key-with_slot = λ c o sl. refl;
  with_slot-slot = λ c o. refl;
}

abbrev pub domain_kind : Kind Schema Domain
domain_kind = record {
  ignored = domain_ignored;
  name = domain_name;
  key = domain_key;
  slot = domain_slot;
  with_slot = with_domain_slot;
  getter = λ c o n. get_domain c (some o) n;
  getter_is = get_domain_is;
  distinct = domain_distinct;
  slot-with_slot = λ c o sl. refl;
  key-with_slot = λ c o sl. refl;
  with_slot-slot = λ c o. refl;
}

abbrev pub view_kind : Kind Schema View
view_kind = record {
  ignored = view_ignored;
  name = view_name;
  key = view_key;
  slot = view_slot;
  with_slot = with_view_slot;
  getter = λ c o n. get_view c (some o) n;
  getter_is = get_view_is;
  distinct = view_distinct;
  slot-with_slot = λ c o sl. refl;
  key-with_slot = λ c o sl. refl;
  with_slot-slot = λ c o. refl;
}

abbrev pub table_kind : Kind Schema Table
table_kind = record {
  ignored = table_ignored;
  name = table_name;
  key = table_key;
  slot = table_slot;
  with_slot = with_table_slot;
  getter = λ c o n. get_table c (some o) n;
  getter_is = get_table_is;
  distinct = table_distinct;
  slot-with_slot = λ c o sl. refl;
  key-with_slot = λ c o sl. refl;
  with_slot-slot = λ c o. refl;
}

abbrev pub column_kind : Kind Table Column
column_kind = record {
  ignored = column_ignored;
  name = column_name;
  key = column_key;
  slot = column_slot;
  with_slot = with_column_slot;
  getter = λ c o n. get_column c (some o) n;
  getter_is = get_column_is;
  distinct = column_distinct;
  slot-with_slot = λ c o sl. refl;
  key-with_slot = λ c o sl. refl;
  with_slot-slot = λ c o. refl;
}

abbrev pub index_kind : Kind Table Index
index_kind = record {
  ignored = index_ignored;
  name = index_name;
  key = index_key;
  slot = index_slot;
  with_slot = with_index_slot;
  getter = λ c o n. get_index c (some o) n;
  getter_is = get_index_is;
  distinct = index_distinct;
  slot-with_slot = λ c o sl. refl;
  key-with_slot = λ c o sl. refl;
  with_slot-slot = λ c o. refl;
}

abbrev pub trigger_kind : Kind Table Trigger
trigger_kind = record {
  ignored = trigger_ignored;
  name = trigger_name;
  key = trigger_key;
  slot = trigger_slot;
  with_slot = with_trigger_slot;
  getter = λ c o n. get_trigger c (some o) n;
  getter_is = get_trigger_is;
  distinct = trigger_distinct;
  slot-with_slot = λ c o sl. refl;
  key-with_slot = λ c o sl. refl;
  with_slot-slot = λ c o. refl;
}

abbrev pub view_index_kind : Kind View Index
view_index_kind = record {
  ignored = view_index_ignored;
  name = view_index_name;
  key = view_index_key;
  slot = view_index_slot;
  with_slot = with_view_index_slot;
  getter = λ c o n. get_view_index c (some o) n;
  getter_is = get_view_index_is;
  distinct = view_index_distinct;
  slot-with_slot = λ c o sl. refl;
  key-with_slot = λ c o sl. refl;
  with_slot-slot = λ c o. refl;
}

abbrev pub view_trigger_kind : Kind View Trigger
view_trigger_kind = record {
  ignored = view_trigger_ignored;
  name = view_trigger_name;
  key = view_trigger_key;
  slot = view_trigger_slot;
  with_slot = with_view_trigger_slot;
  getter = λ c o n. get_view_trigger c (some o) n;
  getter_is = get_view_trigger_is;
  distinct = view_trigger_distinct;
  slot-with_slot = λ c o sl. refl;
  key-with_slot = λ c o sl. refl;
  with_slot-slot = λ c o. refl;
}
