-- ===== src/Diff/Found.antt =====
-- Comparing a catalog with itself: its schemas and tables are found by their names.
use sqddl.Base.{false, some, ◌≡◌, ap, ◌∙◌, All, Bytes}
use sqddl.Cache.Build.{new_catalog_cache}
use sqddl.Cache.Build.Correct.{new_catalog_cache-schemas}
use sqddl.Cache.Build.WellFormed.{IsWellFormed, All-get_elem?}
use sqddl.Cache.Instances.{schema_distinct, table_distinct}
use sqddl.Cache.Schemas.{
  schema_ignored, schema_name, schema_key, get_schema, table_ignored, table_name, table_key,
}
use sqddl.Cache.Slots.{ret}
use sqddl.Cache.Slots.Named.{visible-live_named, live_named_self}
use sqddl.Cache.State.{CatalogCache}
use sqddl.Catalog.{Catalog, Schema, Table}
use sqddl.Diff.Lookups.{find_schema, find_table}
use sqddl.Diff.Reference.{find_table-named}
use sqddl.Diff.Usable.{HasTypes, IsUsable, IsUsableSchema, schemas_are_usable}
use sqddl.Diff.Yields.{All_of_each}

module _ (dialect : Bytes) (cache : CatalogCache) where
  pub record FindsTable (s : Schema) (t : Table) : Type 0 where
    pub finds : table_ignored t ≡ false → find_table cache s t.table_name ≡ ret (some t)
    pub usable : IsUsable dialect cache t

  pub tables_found : (s : Schema) → IsUsableSchema dialect cache s → All (FindsTable s) s.tables
  tables_found s u = All_of_each (FindsTable s) s.tables (λ i t here. record {
    finds = λ live.
        find_table-named cache s t.table_name u.agrees
        ∙ ap ret (
            live_named_self table_ignored table_name (table_key s) (table_distinct s) _ i t
              u.agrees.tables here live);
    usable = All-get_elem? (IsUsable dialect cache) s.tables i t u.tables here;
  })

module _ (dialect : Bytes) (catalog : Catalog) where
  pub record FindsSchema (s : Schema) : Type 0 where
    pub finds :
        schema_ignored s ≡ false
        → find_schema (new_catalog_cache catalog) catalog s.schema_name ≡ ret (some s)
    pub usable : IsUsableSchema dialect (new_catalog_cache catalog) s

  pub schemas_found :
      IsWellFormed catalog → HasTypes dialect catalog → All FindsSchema catalog.schemas
  unfolding find_schema get_schema
  schemas_found w types =
      let synced = new_catalog_cache-schemas catalog w.schemas in
      All_of_each FindsSchema catalog.schemas (λ i s here. record {
        finds = λ live.
            visible-live_named schema_ignored schema_name (schema_key catalog)
              (schema_distinct catalog) _ s.schema_name synced
            ∙ ap ret (
                live_named_self schema_ignored schema_name (schema_key catalog)
                  (schema_distinct catalog) _ i s synced here live);
        usable =
            All-get_elem? (IsUsableSchema dialect (new_catalog_cache catalog)) catalog.schemas i s
              (schemas_are_usable dialect catalog w types) here;
      })
