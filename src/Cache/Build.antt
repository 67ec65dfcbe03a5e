-- ===== src/Cache/Build.antt =====
-- ddl/catalog_cache.go: NewCatalogCache, which walks a catalog and writes down where everything is.
-- A `for i, x := range xs` over the cache is `each`, or `index_from` if it fills one map.
pub mod Positions
pub mod Groups
pub mod Walk
pub mod Keys
pub mod ForeignKeys
pub mod Constraints
pub mod Indexes
pub mod WellFormed
pub mod Decide
pub mod Correct
use sqddl.Base.{ℕ, ◌+◌, Bool, true, false, List, [], ◌∷◌, if◌then◌else◌, Bytes}
use sqddl.Catalog.{
  Catalog, Schema, Enum, Domain, Routine, View, Table, Column, Constraint, Index, Trigger,
}
use sqddl.Cache.Maps.{Key, GoMap, put}
use sqddl.Cache.State.{CatalogCache, empty_cache}
use sqddl.Cache.Routines.{effective_arguments}
use sqddl.Cache.Constraints.{register_kind}

unfoldable pub each {ℓ κ} : {A : Type ℓ} {C : Type κ} → (ℕ → A → C → C) → ℕ → List A → C → C
each visit i [] c = c
each visit i (x ∷ xs) c = each visit (i + 1) xs (visit i x c)

unfoldable pub index_from {ℓ} : {A : Type ℓ} → (A → Key) → ℕ → List A → GoMap ℕ → GoMap ℕ
index_from key i [] m = m
index_from key i (x ∷ xs) m = index_from key (i + 1) xs (put (key x) i m)

abbrev pub schema_id : Schema → Key
schema_id s = s.schema_name ∷ []

-- the keys of the objects of a schema, and of a table or view in it
abbrev pub in_schema : Schema → Bytes → Key
in_schema s name = s.schema_name ∷ name ∷ []

abbrev pub in_object : Schema → Bytes → Bytes → Key
in_object s object name = s.schema_name ∷ object ∷ name ∷ []

unfoldable pub visit_view : Schema → ℕ → View → CatalogCache → CatalogCache
visit_view s j v c =
    let seen = record c { views = put (in_schema s v.view_name) j c.views } in
    if v.is_materialized
    then record seen {
      indexes =
          index_from (λ (x : Index). in_object s v.view_name x.index_name) 0 v.indexes c.indexes;
    }
    else record seen {
      triggers =
          index_from (λ (x : Trigger). in_object s v.view_name x.trigger_name) 0 v.triggers
            c.triggers;
    }

-- a constraint with no name is not in `constraints`
unfoldable pub name_constraint : Schema → Table → ℕ → Bytes → CatalogCache → CatalogCache
name_constraint s t k [] c = c
name_constraint s t k (b ∷ name) c = record c {
  constraints = put (in_object s t.table_name (b ∷ name)) k c.constraints;
}

unfoldable pub visit_constraint : Schema → Table → ℕ → Constraint → CatalogCache → CatalogCache
visit_constraint s t k x c =
    name_constraint s t k x.constraint_name
      (register_kind (in_schema s t.table_name) x.constraint_type k c)

unfoldable pub visit_table : Schema → ℕ → Table → CatalogCache → CatalogCache
visit_table s j t c =
    let seen = record c {
      tables = put (in_schema s t.table_name) j c.tables;
      columns =
          index_from (λ (x : Column). in_object s t.table_name x.column_name) 0 t.columns c.columns;
    } in
    let keyed = each (visit_constraint s t) 0 t.constraints seen in
    record keyed {
      indexes =
          index_from (λ (x : Index). in_object s t.table_name x.index_name) 0 t.indexes
            keyed.indexes;
      triggers =
          index_from (λ (x : Trigger). in_object s t.table_name x.trigger_name) 0 t.triggers
            keyed.triggers;
    }

unfoldable pub visit_schema : ℕ → Schema → CatalogCache → CatalogCache
visit_schema i s c =
    let seen = record c {
      schemas = put (schema_id s) i c.schemas;
      enums = index_from (λ (x : Enum). in_schema s x.enum_name) 0 s.enums c.enums;
      domains = index_from (λ (x : Domain). in_schema s x.domain_name) 0 s.domains c.domains;
      routines =
          index_from
            (λ (x : Routine).
              in_object s x.routine_name (effective_arguments c.dialect x.identity_arguments))
            0 s.routines c.routines;
    } in
    each (visit_table s) 0 s.tables (each (visit_view s) 0 s.views seen)

unfoldable pub new_catalog_cache : Catalog → CatalogCache
new_catalog_cache catalog =
    each visit_schema 0 catalog.schemas (record (empty_cache catalog.dialect) {
      extensions = index_from (λ (x : Bytes). x ∷ []) 0 catalog.extensions [];
    })
