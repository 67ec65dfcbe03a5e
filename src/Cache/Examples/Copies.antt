-- ===== src/Cache/Examples/Copies.antt =====
-- WriteCatalog of ddl/catalog_cache.go at a small catalog.
use sqddl.Base.{
  text_eq_iff, false≢true, Bytes, All, ◌≢◌, ◌++◌, some, none, Bool, true, false, List, [], ◌∷◌, ◌≡◌,
  refl, codes, text_eq,
}
use sqddl.Catalog.{
  Catalog, Schema, Table, Column, zero_schema, zero_table, zero_column, dialect_sqlite,
}
use sqddl.Cache.Build.Correct.{new_catalog_cache-columns}
use sqddl.Cache.Build.Positions.{AreDistinct}
use sqddl.Cache.Build.Walk.{table_path, tables_of}
use sqddl.Cache.Instances.{column_kind}
use sqddl.Cache.Kinds.{Synced}
use sqddl.Cache.State.{CatalogCache}
use sqddl.Cache.Write.Copied.{copy_each-copy_column}
use sqddl.Cache.Maps.{lookup, key_eq, put}
use sqddl.Cache.Slots.{ret, get, check_position, check_item, get_or_create, create_missing, add}
use sqddl.Cache.Schemas.{get_or_create_schema, get_or_create_table}
use sqddl.Cache.Tables.{get_or_create_column, get_column}
use sqddl.Cache.Build.{each, index_from, visit_table, visit_schema, new_catalog_cache}
use sqddl.Cache.Write.{
  copy_each, copy_column, copy_table_fields, copy_source_table, copy_schema_fields, copy_schema,
  copy_catalog_fields, write_catalog,
}

writing : Unit {0}
unfolding get_column index_from visit_table text_eq lookup key_eq put get check_position check_item
    get_or_create create_missing add get_or_create_schema get_or_create_table get_or_create_column
    each visit_schema new_catalog_cache copy_each copy_column copy_table_fields copy_source_table
    copy_schema_fields copy_schema copy_catalog_fields write_catalog
writing = tt

abbrev catalog_of : List Schema → Catalog
catalog_of schemas = record {
  dialect = dialect_sqlite;
  version_nums = [];
  catalog_name = [];
  current_schema = [];
  default_collation = [];
  default_collation_valid = false;
  extensions = [];
  extensions_valid = false;
  schemas = schemas;
}

abbrev source_table : Bool → Table
source_table virtual = record zero_table {
  table_name = codes "a";
  columns = record zero_column { table_name = codes "a"; column_name = codes "id" } ∷ [];
  is_virtual = virtual;
}

abbrev catalog_with : Bool → Catalog
catalog_with virtual = catalog_of (record zero_schema { tables = source_table virtual ∷ [] } ∷ [])

copied : write_catalog (catalog_with false) (catalog_of []) ≡ ret (catalog_with false)
unfolding writing
copied = refl

-- the flag of a virtual table is not copied
copied_virtual : write_catalog (catalog_with true) (catalog_of []) ≡ ret (catalog_with false)
unfolding writing
copied_virtual = refl

abbrev no_columns : Table
no_columns = record zero_table { table_name = codes "b" }

abbrev bare_catalog : Catalog
bare_catalog = catalog_of (record zero_schema { tables = no_columns ∷ [] } ∷ [])

abbrev column_named : Bytes → Column
column_named name = record zero_column { table_name = codes "b"; column_name = name }

abbrev two_columns : List Column
two_columns = column_named (codes "id") ∷ column_named (codes "no") ∷ []

bare_paths : AreDistinct table_path (tables_of bare_catalog.schemas)
unfolding writing
bare_paths = (tt, tt)

bare-Synced : Synced column_kind (new_catalog_cache bare_catalog) no_columns
bare-Synced =
    new_catalog_cache-columns bare_catalog 0 (record zero_schema { tables = no_columns ∷ [] })
      no_columns bare_paths refl refl tt

new_columns :
    All
      (λ x. get_column (new_catalog_cache bare_catalog) (some no_columns) x.column_name ≡ ret none)
      two_columns
unfolding writing
new_columns = (refl, (refl, tt))

no_is_not_id : codes "no" ≢ codes "id"
unfolding writing
no_is_not_id e = absurd (false≢true ((text_eq_iff (codes "no") (codes "id")).1 e))

copy_each-copy_column_example :
    (c' : CatalogCache) × (t' : Table) × (copy_each copy_column two_columns
        (new_catalog_cache bare_catalog, no_columns)
      ≡ ret (c', t'))
    × (t'.columns ≡ no_columns.columns ++ two_columns)
    × Synced column_kind c' t'
    × ((m : Bytes)
        → All (λ x. m ≢ x.column_name) two_columns
        → get_column c' (some t') m
          ≡ get_column (new_catalog_cache bare_catalog) (some no_columns) m)
copy_each-copy_column_example =
    copy_each-copy_column two_columns (new_catalog_cache bare_catalog) no_columns bare-Synced
      ((no_is_not_id, tt), (tt, tt)) new_columns
