-- ===== src/Cache/Examples.antt =====
-- A small catalog, runs of the cache of ddl/catalog_cache.go on it, and the theorems at it.
pub mod Copies
use sqddl.Base.{
  Bool, false, ℕ, true, false, List, [], ◌∷◌, none, some, ◌≡◌, refl, get_elem?, Bytes, codes,
  text_eq,
}
use sqddl.Catalog.{
  Constraint, zero_constraint, foreign_key, Catalog, Schema, Table, Column, zero_schema, zero_table,
  zero_column, dialect_sqlite, dialect_postgres, unique,
}
use sqddl.Cache.Maps.{lookup, key_eq, put, ne-key_eq}
use sqddl.Cache.State.{CatalogCache}
use sqddl.Cache.Slots.{
  ret, panic, get, check_position, check_item, get_or_create, create_missing, add, update,
  add_or_update, add_or_update_at,
}
use sqddl.Cache.Kinds.{Synced, StoreEnds, ObtainEnds}
use sqddl.Cache.Instances.{schema_kind, table_kind, column_kind}
use sqddl.Cache.Schemas.{
  get_schema, get_or_create_schema, add_or_update_schema, fresh_schema, get_table,
  get_or_create_table, add_or_update_table, fresh_table, own_table,
}
use sqddl.Cache.Tables.{get_column, get_or_create_column, add_or_update_column}
use sqddl.Cache.Routines.{get_routine, get_or_create_routine, fresh_routine, routine_key}
use sqddl.Cache.Constraints.{
  get_foreign_keys, get_constraint, get_or_create_constraint, create_constraint, append_constraint,
  fresh_constraint, register_kind,
}
use sqddl.Cache.Build.{
  schema_id, in_schema, each, index_from, visit_view, name_constraint, visit_constraint,
  visit_table, visit_schema, new_catalog_cache,
}
use sqddl.Cache.Correct.{add_or_update_table-StoreEnds, get_or_create_table-ObtainEnds}
use sqddl.Cache.Build.Positions.{AreDistinct}
use sqddl.Cache.Build.Walk.{table_path, column_path, tables_of}
use sqddl.Cache.Build.Correct.{
  new_catalog_cache-schemas, new_catalog_cache-tables, new_catalog_cache-columns,
}
use sqddl.Cache.Sequences.{Refines, add_or_update_schemas, add_or_update_schemas-Refines}
use sqddl.Cache.Build.ForeignKeys.{live_foreign, new_catalog_cache-foreign_keys}
use sqddl.Cache.Faults.{
  get_column-recreated, get_routine-created, get_or_create_constraint-nameless,
}

operations : Unit {0}
unfolding text_eq lookup key_eq put get check_position check_item get_or_create create_missing add
    update add_or_update add_or_update_at get_schema get_or_create_schema add_or_update_schema
    get_table get_or_create_table add_or_update_table get_column get_or_create_column
    add_or_update_column get_routine get_or_create_routine get_constraint get_or_create_constraint
    create_constraint append_constraint register_kind each index_from visit_view name_constraint
    visit_constraint visit_table visit_schema new_catalog_cache
operations = tt

abbrev id_column : Column
id_column = record zero_column {
  table_name = codes "a";
  column_name = codes "id";
  column_type = codes "INT";
}

abbrev name_column : Column
name_column = record zero_column { table_name = codes "a"; column_name = codes "name" }

abbrev constraint_of : Bytes → Bytes → Bool → Constraint
constraint_of name type ignored = record zero_constraint {
  constraint_name = name;
  constraint_type = type;
  ignore = ignored;
}

abbrev keys_of_a : List Constraint
keys_of_a =
    constraint_of (codes "u") unique false
    ∷ constraint_of (codes "f") foreign_key false
    ∷ constraint_of (codes "g") foreign_key true
    ∷ []

abbrev table_a : Table
table_a = record zero_table {
  table_name = codes "a";
  columns = id_column ∷ name_column ∷ [];
  constraints = keys_of_a;
}

-- an ignored table
abbrev table_b : Table
table_b = record zero_table { table_name = codes "b"; columns = id_column ∷ []; ignore = true }

abbrev main_schema : Schema
main_schema = record zero_schema { tables = table_a ∷ table_b ∷ [] }

abbrev other_schema : Schema
other_schema = record zero_schema { schema_name = codes "other" }

abbrev catalog : Catalog
catalog = record {
  dialect = dialect_sqlite;
  version_nums = [];
  catalog_name = [];
  current_schema = [];
  default_collation = [];
  default_collation_valid = false;
  extensions = [];
  extensions_valid = false;
  schemas = main_schema ∷ other_schema ∷ [];
}

abbrev cache : CatalogCache
cache = new_catalog_cache catalog

get_table_test : get_table cache (some main_schema) (codes "a") ≡ ret (some 0)
unfolding operations
get_table_test = refl

ignored_test : get_table cache (some main_schema) (codes "b") ≡ ret none
unfolding operations
ignored_test = refl

schemas_distinct : AreDistinct schema_id catalog.schemas
unfolding operations
schemas_distinct = ((ne-key_eq (codes "other" ∷ []) ([] ∷ []) refl, tt), (tt, tt))

tables_distinct : AreDistinct (λ t. in_schema main_schema t.table_name) main_schema.tables
unfolding operations
tables_distinct = ((ne-key_eq ([] ∷ codes "b" ∷ []) ([] ∷ codes "a" ∷ []) refl, tt), (tt, tt))

paths_distinct : AreDistinct table_path (tables_of catalog.schemas)
unfolding operations
paths_distinct = ((ne-key_eq ([] ∷ codes "b" ∷ []) ([] ∷ codes "a" ∷ []) refl, tt), (tt, tt))

columns_distinct :
    AreDistinct (λ x. column_path (main_schema, table_a) x.column_name) table_a.columns
unfolding operations
columns_distinct = (
  (ne-key_eq ([] ∷ codes "a" ∷ codes "name" ∷ []) ([] ∷ codes "a" ∷ codes "id" ∷ []) refl, tt),
  (tt, tt),
)

new_catalog_cache-columns_example : Synced column_kind cache table_a
new_catalog_cache-columns_example =
    new_catalog_cache-columns catalog 0 main_schema table_a paths_distinct refl refl
      columns_distinct

new_catalog_cache-foreign_keys_example :
    get_foreign_keys cache (some table_a) ≡ ret (live_foreign 0 keys_of_a)
new_catalog_cache-foreign_keys_example =
    new_catalog_cache-foreign_keys catalog 0 main_schema table_a paths_distinct refl refl

schemas-Synced : Synced schema_kind cache catalog
schemas-Synced = new_catalog_cache-schemas catalog schemas_distinct

tables-Synced : Synced table_kind cache main_schema
tables-Synced = new_catalog_cache-tables catalog 0 main_schema schemas_distinct refl tables_distinct

columns-Synced : Synced column_kind cache table_a
columns-Synced =
    new_catalog_cache-columns catalog 0 main_schema table_a paths_distinct refl refl
      columns_distinct

abbrev new_schema : Schema
new_schema = fresh_schema catalog (codes "new")

-- an update of the second column, with a type
abbrev typed_column : Column
typed_column = record zero_column { column_name = codes "name"; column_type = codes "TEXT" }

-- two schemas of one name, the second of which is ignored
abbrev added : List Schema
added = new_schema ∷ record new_schema { ignore = true } ∷ []

add_or_update_schemas-Refines_example :
    Refines schema_kind cache catalog added (add_or_update_schemas cache catalog added)
add_or_update_schemas-Refines_example =
    add_or_update_schemas-Refines cache catalog added schemas-Synced

add_or_update_table-StoreEnds_example :
    StoreEnds table_kind cache main_schema
      (codes "b")
      (own_table main_schema table_b)
      (add_or_update_table cache main_schema table_b)
add_or_update_table-StoreEnds_example =
    add_or_update_table-StoreEnds cache main_schema table_b tables-Synced

get_or_create_table-ObtainEnds_example :
    ObtainEnds table_kind cache main_schema
      (codes "b")
      (fresh_table main_schema (codes "b"))
      (get_or_create_table cache main_schema (codes "b"))
get_or_create_table-ObtainEnds_example =
    get_or_create_table-ObtainEnds cache main_schema (codes "b") tables-Synced

b_is_none : get_table cache (some main_schema) (codes "b") ≡ ret none
unfolding operations
b_is_none = refl

b_has_id : lookup ([] ∷ codes "b" ∷ codes "id" ∷ []) cache.columns ≡ some 0
unfolding operations
b_has_id = refl

get_column-recreated_example :
    (c' : CatalogCache) × (s' : Schema) × (i : ℕ) × (get_or_create_table cache main_schema
        (codes "b")
      ≡ ret (c', s', i))
    × (get_elem? s'.tables i ≡ some (fresh_table main_schema (codes "b")))
    × (get_column c' (some (fresh_table main_schema (codes "b"))) (codes "id") ≡ panic)
get_column-recreated_example =
    get_column-recreated cache main_schema (codes "b") (codes "id") 0 b_is_none b_has_id

sqlite_is_not_postgres : text_eq cache.dialect dialect_postgres ≡ false
unfolding operations
sqlite_is_not_postgres = refl

no_routine :
    (arguments : Bytes)
    → lookup (routine_key main_schema (codes "f") arguments) cache.routines ≡ none
unfolding operations
no_routine arguments = refl

get_routine-created_example :
    (c' : CatalogCache) × (s' : Schema) × (i : ℕ) × (get_or_create_routine cache main_schema
        (codes "f")
        (codes "int")
      ≡ ret (c', s', i))
    × (get_elem? s'.routines i ≡ some (fresh_routine main_schema (codes "f") (codes "int")))
    × (get_routine c' (some s') (codes "f") (codes "int") ≡ ret none)
get_routine-created_example =
    get_routine-created cache main_schema (codes "f") (codes "int") sqlite_is_not_postgres (λ e. cc)
      (no_routine []) (no_routine (codes "int"))

no_nameless : get_constraint cache (some table_a) [] ≡ ret none
unfolding operations
no_nameless = refl

get_or_create_constraint-nameless_example :
    (c' : CatalogCache) × (t' : Table) × (i : ℕ) × (get_or_create_constraint cache table_a [] unique
        (codes "id" ∷ [])
      ≡ ret (c', t', i))
    × (get_elem? t'.constraints i ≡ some (fresh_constraint table_a [] unique (codes "id" ∷ [])))
    × ((type' : Bytes) (columns' : List Bytes)
        → get_or_create_constraint c' t' [] type' columns' ≡ ret (c', t', i))
get_or_create_constraint-nameless_example =
    get_or_create_constraint-nameless cache table_a unique (codes "id" ∷ []) no_nameless
