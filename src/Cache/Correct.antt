-- ===== src/Cache/Correct.antt =====
-- What the operations of ddl/catalog_cache.go do, where the cache and the owner's slice agree.
use sqddl.Base.{refl, Bytes}
use sqddl.Catalog.{Catalog, Schema, Table, Column}
use sqddl.Cache.Kinds.{Synced, StoreEnds, ObtainEnds, store_lem, obtain_lem}
use sqddl.Cache.Instances.{schema_kind, table_kind, column_kind}
use sqddl.Cache.State.{CatalogCache}
use sqddl.Cache.Schemas.{
  add_or_update_schema, get_or_create_schema, fresh_schema, add_or_update_table, own_table,
  get_or_create_table, fresh_table,
}
use sqddl.Cache.Tables.{add_or_update_column, own_column, get_or_create_column, fresh_column}

-- AddOrUpdateSchema on a cache that agrees with the catalog does not panic. It stores the schema at
-- a position of the catalog's slice. From then on GetSchema of its name points to it, or returns
-- nil if it is ignored; GetSchema of any other name returns the same pointer, to the same schema,
-- and the cache still agrees with the catalog.
pub add_or_update_schema-StoreEnds :
    (c : CatalogCache) (catalog : Catalog) (x : Schema)
    → Synced schema_kind c catalog
    → StoreEnds schema_kind c catalog x.schema_name x (add_or_update_schema c catalog x)
unfolding add_or_update_schema
add_or_update_schema-StoreEnds c catalog x h =
    store_lem schema_kind c catalog x.schema_name x h refl

-- GetOrCreateSchema on a cache that agrees with the catalog does not panic. Where GetSchema returns
-- a pointer it returns the same one, and neither the cache nor the catalog changes. Where GetSchema
-- returns nil it puts a fresh schema behind the others and returns a pointer to it; from then on
-- GetSchema returns that pointer, GetSchema of any other name returns the same pointer, to the same
-- schema, as before, and the cache still agrees with the catalog.
pub get_or_create_schema-ObtainEnds :
    (c : CatalogCache) (catalog : Catalog) (name : Bytes)
    → Synced schema_kind c catalog
    → ObtainEnds schema_kind c catalog name
        (fresh_schema catalog name)
        (get_or_create_schema c catalog name)
unfolding get_or_create_schema
get_or_create_schema-ObtainEnds c catalog name h =
    obtain_lem schema_kind c catalog name (fresh_schema catalog name) h refl refl

-- AddOrUpdateTable on a cache that agrees with the schema does not panic. It stores the table, with
-- the name of the schema written in, at a position of the schema's slice. From then on GetTable of
-- its name points to it, or returns nil if it is ignored; GetTable of any other name returns the
-- same pointer, to the same table, and the cache still agrees with the schema.
pub add_or_update_table-StoreEnds :
    (c : CatalogCache) (s : Schema) (x : Table)
    → Synced table_kind c s
    → StoreEnds table_kind c s x.table_name (own_table s x) (add_or_update_table c s x)
unfolding add_or_update_table
add_or_update_table-StoreEnds c s x h = store_lem table_kind c s x.table_name (own_table s x) h refl

-- GetOrCreateTable on a cache that agrees with the schema does not panic. Where GetTable returns a
-- pointer it returns the same one, and neither the cache nor the schema changes. Where GetTable
-- returns nil it puts a fresh table behind the others and returns a pointer to it; from then on
-- GetTable returns that pointer, GetTable of any other name returns the same pointer, to the same
-- table, as before, and the cache still agrees with the schema.
pub get_or_create_table-ObtainEnds :
    (c : CatalogCache) (s : Schema) (name : Bytes)
    → Synced table_kind c s
    → ObtainEnds table_kind c s name (fresh_table s name) (get_or_create_table c s name)
unfolding get_or_create_table
get_or_create_table-ObtainEnds c s name h =
    obtain_lem table_kind c s name (fresh_table s name) h refl refl

-- AddOrUpdateColumn on a cache that agrees with the table does not panic. It stores the column,
-- with the names of the schema and table written in, at a position of the table's slice. From then
-- on GetColumn of its name points to it, or returns nil if it is ignored; GetColumn of any other
-- name returns the same pointer, to the same column, and the cache still agrees with the table.
pub add_or_update_column-StoreEnds :
    (c : CatalogCache) (t : Table) (x : Column)
    → Synced column_kind c t
    → StoreEnds column_kind c t x.column_name (own_column t x) (add_or_update_column c t x)
unfolding add_or_update_column
add_or_update_column-StoreEnds c t x h =
    store_lem column_kind c t x.column_name (own_column t x) h refl

-- GetOrCreateColumn on a cache that agrees with the table does not panic. Where GetColumn returns a
-- pointer it returns the same one, and neither the cache nor the table changes. Where GetColumn
-- returns nil it puts a fresh column behind the others and returns a pointer to it; from then on
-- GetColumn returns that pointer, GetColumn of any other name returns the same pointer, to the same
-- column, as before, and the cache still agrees with the table.
pub get_or_create_column-ObtainEnds :
    (c : CatalogCache) (t : Table) (name : Bytes) (type : Bytes)
    → Synced column_kind c t
    → ObtainEnds column_kind c t name
        (fresh_column t name type)
        (get_or_create_column c t name type)
unfolding get_or_create_column
get_or_create_column-ObtainEnds c t name type h =
    obtain_lem column_kind c t name (fresh_column t name type) h refl refl
