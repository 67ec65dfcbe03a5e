-- ===== src/Cache/Build/Correct.antt =====
-- NewCatalogCache gives a cache that agrees with the catalog.
use sqddl.Base.{ℕ, [], ◌∷◌, some, ◌≡◌, sym, ap, ◌∙◌, subst, get_elem?}
use sqddl.Catalog.{Catalog, Schema, Table}
use sqddl.Cache.Maps.{lookup}
use sqddl.Cache.Slots.Laws.{IsSynced}
use sqddl.Cache.Kinds.{Synced}
use sqddl.Cache.Instances.{schema_kind, table_kind, column_kind, schema_distinct, table_distinct}
use sqddl.Cache.Schemas.{
  schema_ignored, schema_name, schema_key, table_ignored, table_name, table_key,
}
use sqddl.Cache.Tables.{column_ignored, column_name}
use sqddl.Cache.Build.{schema_id, in_schema, visit_schema, new_catalog_cache}
use sqddl.Cache.Build.Positions.{AreDistinct}
use sqddl.Cache.Build.Groups.{index_from-IsSynced, lookup-index_groups}
use sqddl.Cache.Build.Walk.{
  each-index_from, visit_schema-schemas, each-visit_schema-tables, each-visit_schema-columns,
  tables_of, table_path, column_path, in_schema_apart, column_path_apart,
}

-- NewCatalogCache agrees with the catalog's schemas, if their names are distinct.
pub new_catalog_cache-schemas :
    (catalog : Catalog)
    → AreDistinct schema_id catalog.schemas
    → Synced schema_kind (new_catalog_cache catalog) catalog
unfolding new_catalog_cache
new_catalog_cache-schemas catalog d =
    index_from-IsSynced schema_ignored schema_name (schema_key catalog) (schema_distinct catalog)
      catalog.schemas _ d
      (λ n. ap (lookup (schema_key catalog n)) (
        each-index_from (λ c. c.schemas) schema_id visit_schema visit_schema-schemas 0
          catalog.schemas _))

-- NewCatalogCache agrees with the tables of each schema of the catalog, if the names of the
-- schemas are distinct and so are those of the schema's tables.
pub new_catalog_cache-tables :
    (catalog : Catalog) (i : ℕ) (s : Schema)
    → AreDistinct schema_id catalog.schemas
    → get_elem? catalog.schemas i ≡ some s
    → AreDistinct (λ t. in_schema s (table_name t)) s.tables
    → Synced table_kind (new_catalog_cache catalog) s
unfolding new_catalog_cache
new_catalog_cache-tables catalog i s ds here d =
    index_from-IsSynced table_ignored table_name (table_key s) (table_distinct s) s.tables _ d (λ n.
      ap (lookup (table_key s n)) (each-visit_schema-tables 0 catalog.schemas _)
      ∙ lookup-index_groups schema_id in_schema (λ s. s.tables) table_name in_schema_apart
          catalog.schemas i s n [] ds here)

-- NewCatalogCache agrees with the columns of each table of the catalog, if no two tables have the
-- same schema and name, the table carries its schema's name, and the names of its columns are
-- distinct.
pub new_catalog_cache-columns :
    (catalog : Catalog) (i : ℕ) (s : Schema) (t : Table)
    → AreDistinct table_path (tables_of catalog.schemas)
    → get_elem? (tables_of catalog.schemas) i ≡ some (s, t)
    → t.table_schema ≡ s.schema_name
    → AreDistinct (λ x. column_path (s, t) (column_name x)) t.columns
    → Synced column_kind (new_catalog_cache catalog) t
unfolding new_catalog_cache
new_catalog_cache-columns catalog i s t dt here owned d =
    subst
      (λ schema.
        IsSynced column_ignored column_name (λ n. schema ∷ t.table_name ∷ n ∷ [])
          (record { index = (new_catalog_cache catalog).columns; items = t.columns }))
      (sym owned)
      (index_from-IsSynced column_ignored column_name (column_path (s, t)) (λ n m e. cc) t.columns _
        d
        (λ n.
          ap (lookup (column_path (s, t) n)) (each-visit_schema-columns 0 catalog.schemas _)
          ∙ lookup-index_groups table_path column_path (λ g. g.1.columns) column_name
              column_path_apart (tables_of catalog.schemas) i (s, t) n [] dt here))
