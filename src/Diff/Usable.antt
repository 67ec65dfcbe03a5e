-- ===== src/Diff/Usable.antt =====
-- Catalogs on which the lookups and comparisons of a migration do not panic.
use sqddl.Base.{ℕ, some, ◌≡◌, All, get_elem?, Bytes}
use sqddl.Cache.Build.{new_catalog_cache}
use sqddl.Cache.Build.Correct.{new_catalog_cache-schemas}
use sqddl.Cache.Build.ForeignKeys.{new_catalog_cache-foreign_keys, live_foreign}
use sqddl.Cache.Build.Walk.{tables_of}
use sqddl.Cache.Build.WellFormed.{
  HasDistinctParts, IsWellFormed, Agrees, AgreesOnTable, All-get_elem?, get_elem?-tables_of,
  new_catalog_cache-Agrees,
}
use sqddl.Cache.Instances.{schema_distinct}
use sqddl.Cache.Schemas.{
  schema_ignored, schema_name, schema_key, get_schema, table_ignored, table_name,
}
use sqddl.Cache.Slots.{ret}
use sqddl.Cache.Slots.Named.{live_named, visible-live_named}
use sqddl.Cache.State.{CatalogCache}
use sqddl.Cache.Tables.{column_ignored, column_name}
use sqddl.Catalog.{Catalog, Schema, Table, Column}
use sqddl.Diff.Lookups.{find_schema, find_table, find_column, find_constraint, find_index}
use sqddl.Diff.Reference.{
  table_named, column_named, constraint_named, index_named, find_table-named, find_column-named,
  find_constraint-named, find_index-named,
}
use sqddl.Diff.Steps.{find_foreign_keys, items_at, types_differ, columns_differ}
use sqddl.Diff.Yields.{
  Yields, Returns, Yields-of, IfFound, All-found, All_of_each, Returns-bind, Returns-ret,
}
use sqddl.Helpers.ColumnTypes.{normalize_column_type}

module _ (dialect : Bytes) where
  -- normalizeColumnType does not panic on the type
  pub record IsTyped (x : Column) : Type 0 where
    pub normalizes : Returns (normalize_column_type dialect x.column_type)

  -- all columns of the catalog have such types
  abbrev pub HasTypes : Catalog → Type 0
  HasTypes catalog = All (λ s. All (λ t. All IsTyped t.columns) s.tables) catalog.schemas

  pub record IsUsable (cache : CatalogCache) (t : Table) : Type 0 where
    pub agrees : AgreesOnTable cache t
    pub fkeys : Returns (find_foreign_keys cache t)
    pub types : All IsTyped t.columns

  pub record IsUsableSchema (cache : CatalogCache) (s : Schema) : Type 0 where
    pub agrees : Agrees cache s
    pub tables : All (IsUsable cache) s.tables

  foreign_keys-Returns :
      (catalog : Catalog) (k : ℕ) (s : Schema) (t : Table)
      → IsWellFormed catalog
      → get_elem? (tables_of catalog.schemas) k ≡ some (s, t)
      → t.table_schema ≡ s.schema_name
      → Returns (find_foreign_keys (new_catalog_cache catalog) t)
  unfolding find_foreign_keys
  foreign_keys-Returns catalog k s t w at owned =
      Returns-bind _ (λ found. ret (items_at t.constraints found))
        (Yields-of (λ a. Unit) _ (live_foreign 0 t.constraints)
          (new_catalog_cache-foreign_keys catalog k s t w.paths at owned) tt)
        (λ found. Returns-ret _)

  pub schemas_are_usable :
      (catalog : Catalog)
      → IsWellFormed catalog
      → HasTypes catalog
      → All (IsUsableSchema (new_catalog_cache catalog)) catalog.schemas
  schemas_are_usable catalog w types =
      All_of_each (IsUsableSchema (new_catalog_cache catalog)) catalog.schemas (λ i s here.
        let agrees = new_catalog_cache-Agrees catalog i s w here in
        let typed =
          All-get_elem? (λ s. All (λ t. All IsTyped t.columns) s.tables) catalog.schemas i s types
            here in
        record {
          agrees = agrees;
          tables = All_of_each (IsUsable (new_catalog_cache catalog)) s.tables (λ j t there.
              let (k, at) = get_elem?-tables_of catalog.schemas i s j t here there in
              let parts =
                All-get_elem? HasDistinctParts (tables_of catalog.schemas) k (s, t) w.parts at in
              record {
                agrees = agrees.on_table j t there;
                fkeys = foreign_keys-Returns catalog k s t w at parts.0;
                types = All-get_elem? (λ t. All IsTyped t.columns) s.tables j t typed there;
              });
        })

  pub find_schema-Yields :
      (catalog : Catalog) (n : Bytes) (P : Schema → Type 0)
      → IsWellFormed catalog
      → All P catalog.schemas
      → Yields (IfFound P) (find_schema (new_catalog_cache catalog) catalog n)
  unfolding find_schema get_schema
  find_schema-Yields catalog n P w h =
      Yields-of (IfFound P) _ (live_named schema_ignored schema_name n catalog.schemas)
        (visible-live_named schema_ignored schema_name (schema_key catalog)
          (schema_distinct catalog) _ n (new_catalog_cache-schemas catalog w.schemas))
        (All-found P schema_ignored schema_name n catalog.schemas h)

  module _ (cache : CatalogCache) where
    pub find_table-Yields :
        (s : Schema) (n : Bytes)
        → IsUsableSchema cache s
        → Yields (IfFound (IsUsable cache)) (find_table cache s n)
    find_table-Yields s n u =
        Yields-of (IfFound (IsUsable cache)) _ (table_named s n)
          (find_table-named cache s n u.agrees)
          (All-found (IsUsable cache) table_ignored table_name n s.tables u.tables)

    module _ (t : Table) (n : Bytes) (u : IsUsable cache t) where
      pub find_column-Yields : Yields (IfFound IsTyped) (find_column cache t n)
      find_column-Yields =
          Yields-of (IfFound IsTyped) _ (column_named t n) (find_column-named cache t n u.agrees)
            (All-found IsTyped column_ignored column_name n t.columns u.types)

      pub find_constraint-Returns : Returns (find_constraint cache t n)
      find_constraint-Returns =
          Yields-of (λ a. Unit) _ (constraint_named t n) (find_constraint-named cache t n u.agrees)
            tt

      pub find_index-Returns : Returns (find_index cache t n)
      find_index-Returns =
          Yields-of (λ a. Unit) _ (index_named t n) (find_index-named cache t n u.agrees) tt

  pub types_differ-Returns :
      (old x : Column) → IsTyped old → IsTyped x → Returns (types_differ dialect old x)
  unfolding types_differ
  types_differ-Returns old x p q =
      Returns-bind _ _ p.normalizes (λ from. Returns-bind _ _ q.normalizes (λ to. Returns-ret _))

  pub columns_differ-Returns :
      (default_collation : Bytes) (old x : Column)
      → IsTyped old
      → IsTyped x
      → Returns (columns_differ dialect default_collation old x)
  unfolding columns_differ
  columns_differ-Returns dc old x p q =
      Returns-bind _ _ (types_differ-Returns old x p q) (λ types. Returns-ret _)
