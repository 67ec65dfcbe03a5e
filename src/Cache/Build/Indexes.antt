-- ===== src/Cache/Build/Indexes.antt =====
-- NewCatalogCache and the indexes of the tables. The map of the indexes is filled by the views, of
-- which only the materialized ones have any, and by the tables of each schema.
use sqddl.Base.{
  ℕ, ◌+◌, List, [], ◌∷◌, ◌++◌, some, ◌≡◌, refl, sym, ap, ◌∙◌, if◌then◌else◌, Bytes, subst,
  get_elem?, arith,
}
use sqddl.Cache.Build.{
  each, index_from, in_schema, visit_view, name_constraint, visit_constraint, visit_table,
  visit_schema, new_catalog_cache,
}
use sqddl.Cache.Build.Groups.{
  index_groups, index_groups-append, index_from-IsSynced, lookup-index_groups,
}
use sqddl.Cache.Build.Positions.{AreDistinct}
use sqddl.Cache.Build.Walk.{each-keeps}
use sqddl.Cache.Constraints.{register_kind}
use sqddl.Cache.Maps.{Key, GoMap, lookup}
use sqddl.Cache.Slots.Laws.{IsSynced}
use sqddl.Cache.State.{CatalogCache}
use sqddl.Cache.Tables.{index_ignored, index_name, index_key}
use sqddl.Catalog.{Catalog, Schema, View, Table, Constraint, Index}

-- What has indexes: the schema and the name of a view or table, and its indexes.
abbrev pub Owner : Type 0
Owner = Bytes × Bytes × List Index

abbrev pub owner_id : Owner → Key
owner_id g = g.0 ∷ g.1 ∷ []

abbrev pub owner_key : Owner → Bytes → Key
owner_key g n = g.0 ∷ g.1 ∷ n ∷ []

owner_apart : (g h : Owner) (n m : Bytes) → owner_key g n ≡ owner_key h m → owner_id g ≡ owner_id h
owner_apart g h n m e = cc

abbrev pub view_owner : Schema → View → Owner
view_owner s v = (s.schema_name, v.view_name, if v.is_materialized then v.indexes else [])

abbrev pub table_owner : Schema → Table → Owner
table_owner s t = (s.schema_name, t.table_name, t.indexes)

abbrev pub view_owners : Schema → List View → List Owner
view_owners s [] = []
view_owners s (v ∷ vs) = view_owner s v ∷ view_owners s vs

abbrev pub table_owners : Schema → List Table → List Owner
table_owners s [] = []
table_owners s (t ∷ ts) = table_owner s t ∷ table_owners s ts

abbrev pub owners_of : List Schema → List Owner
owners_of [] = []
owners_of (s ∷ ss) = (view_owners s s.views ++ table_owners s s.tables) ++ owners_of ss

abbrev index_owners : List Owner → GoMap ℕ → GoMap ℕ
index_owners = index_groups owner_id owner_key (λ g. g.2) index_name owner_apart

index_owners-append :
    (gs hs : List Owner) (m : GoMap ℕ)
    → index_owners (gs ++ hs) m ≡ index_owners hs (index_owners gs m)
index_owners-append = index_groups-append owner_id owner_key (λ g. g.2) index_name owner_apart

visit_view-indexes :
    (s : Schema) (j : ℕ) (v : View) (c : CatalogCache)
    → (visit_view s j v c).indexes
      ≡ index_from (λ x. owner_key (view_owner s v) (index_name x)) 0 (view_owner s v).2 c.indexes
unfolding visit_view index_from
visit_view-indexes s j v c = ground arith

register_kind-indexes :
    (id : Key) (type : Bytes) (k : ℕ) (c : CatalogCache)
    → (register_kind id type k c).indexes ≡ c.indexes
unfolding register_kind
register_kind-indexes id type k c = ground arith

name_constraint-indexes :
    (s : Schema) (t : Table) (k : ℕ) (name : Bytes) (c : CatalogCache)
    → (name_constraint s t k name c).indexes ≡ c.indexes
unfolding name_constraint
name_constraint-indexes s t k [] c = refl
name_constraint-indexes s t k (b ∷ name) c = refl

visit_constraint-indexes :
    (s : Schema) (t : Table) (k : ℕ) (x : Constraint) (c : CatalogCache)
    → (visit_constraint s t k x c).indexes ≡ c.indexes
unfolding visit_constraint
visit_constraint-indexes s t k x c =
    name_constraint-indexes s t k x.constraint_name _
    ∙ register_kind-indexes (in_schema s t.table_name) x.constraint_type k c

visit_table-indexes :
    (s : Schema) (j : ℕ) (t : Table) (c : CatalogCache)
    → (visit_table s j t c).indexes
      ≡ index_from (λ x. owner_key (table_owner s t) (index_name x)) 0 t.indexes c.indexes
unfolding visit_table
visit_table-indexes s j t c =
    ap (index_from (λ x. owner_key (table_owner s t) (index_name x)) 0 t.indexes) (
      each-keeps (λ c. c.indexes) (visit_constraint s t) (visit_constraint-indexes s t) 0
        t.constraints _)

each-visit_view-indexes :
    (s : Schema) (j : ℕ) (vs : List View) (c : CatalogCache)
    → (each (visit_view s) j vs c).indexes ≡ index_owners (view_owners s vs) c.indexes
unfolding each index_groups
each-visit_view-indexes s j [] c = refl
each-visit_view-indexes s j (v ∷ vs) c =
    each-visit_view-indexes s (j + 1) vs (visit_view s j v c)
    ∙ ap (index_owners (view_owners s vs)) (visit_view-indexes s j v c)

each-visit_table-indexes :
    (s : Schema) (j : ℕ) (ts : List Table) (c : CatalogCache)
    → (each (visit_table s) j ts c).indexes ≡ index_owners (table_owners s ts) c.indexes
unfolding each index_groups
each-visit_table-indexes s j [] c = refl
each-visit_table-indexes s j (t ∷ ts) c =
    each-visit_table-indexes s (j + 1) ts (visit_table s j t c)
    ∙ ap (index_owners (table_owners s ts)) (visit_table-indexes s j t c)

visit_schema-indexes :
    (i : ℕ) (s : Schema) (c : CatalogCache)
    → (visit_schema i s c).indexes
      ≡ index_owners (view_owners s s.views ++ table_owners s s.tables) c.indexes
unfolding visit_schema
visit_schema-indexes i s c =
    each-visit_table-indexes s 0 s.tables _
    ∙ ap (index_owners (table_owners s s.tables)) (each-visit_view-indexes s 0 s.views _)
    ∙ sym (index_owners-append (view_owners s s.views) (table_owners s s.tables) c.indexes)

each-visit_schema-indexes :
    (i : ℕ) (ss : List Schema) (c : CatalogCache)
    → (each visit_schema i ss c).indexes ≡ index_owners (owners_of ss) c.indexes
unfolding each
each-visit_schema-indexes i [] c = unfold index_groups in refl
each-visit_schema-indexes i (s ∷ ss) c =
    each-visit_schema-indexes (i + 1) ss (visit_schema i s c)
    ∙ ap (index_owners (owners_of ss)) (visit_schema-indexes i s c)
    ∙ sym (
        index_owners-append (view_owners s s.views ++ table_owners s s.tables) (owners_of ss)
          c.indexes)

-- NewCatalogCache agrees with the indexes of each table of the catalog, if no two views or tables
-- have the same schema and name, the table carries its schema's name, and the names of its indexes
-- are distinct.
pub new_catalog_cache-indexes :
    (catalog : Catalog) (i : ℕ) (s : Schema) (t : Table)
    → AreDistinct owner_id (owners_of catalog.schemas)
    → get_elem? (owners_of catalog.schemas) i ≡ some (table_owner s t)
    → t.table_schema ≡ s.schema_name
    → AreDistinct (λ x. owner_key (table_owner s t) (index_name x)) t.indexes
    → IsSynced index_ignored index_name
        (index_key t)
        (record { index = (new_catalog_cache catalog).indexes; items = t.indexes })
unfolding new_catalog_cache
new_catalog_cache-indexes catalog i s t dt here owned d =
    subst
      (λ schema.
        IsSynced index_ignored index_name (λ n. schema ∷ t.table_name ∷ n ∷ [])
          (record { index = (new_catalog_cache catalog).indexes; items = t.indexes }))
      (sym owned)
      (index_from-IsSynced index_ignored index_name (owner_key (table_owner s t)) (λ n m e. cc)
        t.indexes _ d
        (λ n.
          ap (lookup (owner_key (table_owner s t) n))
            (each-visit_schema-indexes 0 catalog.schemas _)
          ∙ lookup-index_groups owner_id owner_key (λ g. g.2) index_name owner_apart
              (owners_of catalog.schemas) i (table_owner s t) n [] dt here))
