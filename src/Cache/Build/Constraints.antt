-- ===== src/Cache/Build/Constraints.antt =====
-- NewCatalogCache and the constraints of the tables: the map of their names is the one that
-- `index_groups` fills, if every constraint has a name.
use sqddl.Base.{
  ℕ, ◌+◌, List, [], ◌∷◌, ◌++◌, ◌≡◌, ◌≢◌, refl, sym, ap, ◌∙◌, Bytes, All, arith, subst, get_elem?,
  some,
}
use sqddl.Cache.Build.{
  each, index_from, in_schema, in_object, visit_view, name_constraint, visit_constraint,
  visit_table, visit_schema, new_catalog_cache,
}
use sqddl.Cache.Build.Groups.{
  index_groups, index_groups-append, index_from-IsSynced, lookup-index_groups,
}
use sqddl.Cache.Build.Positions.{AreDistinct}
use sqddl.Cache.Build.Walk.{
  each-keeps, tables_in, tables_of, table_path, column_path, column_path_apart,
}
use sqddl.Cache.Constraints.{register_kind, constraint_ignored, constraint_name, constraint_key}
use sqddl.Cache.Maps.{Key, GoMap, lookup, put}
use sqddl.Cache.Slots.Laws.{IsSynced}
use sqddl.Cache.State.{CatalogCache}
use sqddl.Catalog.{Catalog, Schema, View, Table, Constraint}

abbrev pub IsNamed : Constraint → Type 0
IsNamed x = x.constraint_name ≢ []

-- each-index_from, for visits that write their key only at items with a property.
each-index_from_where :
    {A : Type 0} (P : A → Type 0) (part : CatalogCache → GoMap ℕ) (key : A → Key)
    (visit : ℕ → A → CatalogCache → CatalogCache)
    → ((i : ℕ) (x : A) (c : CatalogCache) → P x → part (visit i x c) ≡ put (key x) i (part c))
    → (i : ℕ) (xs : List A) (c : CatalogCache) → All P xs
    → part (each visit i xs c) ≡ index_from key i xs (part c)
unfolding each index_from
each-index_from_where P part key visit keep i [] c h = refl
each-index_from_where P part key visit keep i (x ∷ xs) c (p, h) =
    each-index_from_where P part key visit keep (i + 1) xs (visit i x c) h
    ∙ ap (index_from key (i + 1) xs) (keep i x c p)

register_kind-constraints :
    (id : Key) (type : Bytes) (k : ℕ) (c : CatalogCache)
    → (register_kind id type k c).constraints ≡ c.constraints
unfolding register_kind
register_kind-constraints id type k c = ground arith

name_constraint-constraints :
    (s : Schema) (t : Table) (k : ℕ) (name : Bytes) (c : CatalogCache)
    → name ≢ []
    → (name_constraint s t k name c).constraints
      ≡ put (in_object s t.table_name name) k c.constraints
unfolding name_constraint
name_constraint-constraints s t k [] c h = absurd (h refl)
name_constraint-constraints s t k (b ∷ name) c h = refl

visit_constraint-constraints :
    (s : Schema) (t : Table) (k : ℕ) (x : Constraint) (c : CatalogCache)
    → IsNamed x
    → (visit_constraint s t k x c).constraints
      ≡ put (in_object s t.table_name x.constraint_name) k c.constraints
unfolding visit_constraint
visit_constraint-constraints s t k x c h =
    name_constraint-constraints s t k x.constraint_name _ h
    ∙ ap (put (in_object s t.table_name x.constraint_name) k)
        (register_kind-constraints (in_schema s t.table_name) x.constraint_type k c)

visit_table-constraints :
    (s : Schema) (j : ℕ) (t : Table) (c : CatalogCache)
    → All IsNamed t.constraints
    → (visit_table s j t c).constraints
      ≡ index_from (λ x. in_object s t.table_name (constraint_name x)) 0 t.constraints c.constraints
unfolding visit_table
visit_table-constraints s j t c =
    each-index_from_where IsNamed (λ c. c.constraints)
      (λ x. in_object s t.table_name (constraint_name x)) (visit_constraint s t)
      (visit_constraint-constraints s t) 0 t.constraints _

abbrev index_constraints : List (Schema × Table) → GoMap ℕ → GoMap ℕ
index_constraints =
    index_groups table_path column_path (λ g. g.1.constraints) constraint_name column_path_apart

-- every constraint of the table has a name
abbrev pub HasNamed : Schema × Table → Type 0
HasNamed g = All IsNamed g.1.constraints

each-visit_table-constraints :
    (s : Schema) (j : ℕ) (ts : List Table) (c : CatalogCache)
    → All HasNamed (tables_in s ts)
    → (each (visit_table s) j ts c).constraints ≡ index_constraints (tables_in s ts) c.constraints
unfolding each index_groups
each-visit_table-constraints s j [] c h = refl
each-visit_table-constraints s j (t ∷ ts) c (p, h) =
    each-visit_table-constraints s (j + 1) ts (visit_table s j t c) h
    ∙ ap (index_constraints (tables_in s ts)) (visit_table-constraints s j t c p)

visit_view-constraints :
    (s : Schema) (j : ℕ) (v : View) (c : CatalogCache)
    → (visit_view s j v c).constraints ≡ c.constraints
unfolding visit_view
visit_view-constraints s j v c = ground arith

visit_schema-constraints :
    (i : ℕ) (s : Schema) (c : CatalogCache)
    → All HasNamed (tables_in s s.tables)
    → (visit_schema i s c).constraints ≡ index_constraints (tables_in s s.tables) c.constraints
unfolding visit_schema
visit_schema-constraints i s c h =
    each-visit_table-constraints s 0 s.tables _ h
    ∙ ap (index_constraints (tables_in s s.tables))
        (each-keeps (λ c. c.constraints) (visit_view s) (visit_view-constraints s) 0 s.views _)

All-append_inv {ℓ κ} :
    {A : Type ℓ} (P : A → Type κ) (xs ys : List A) → All P (xs ++ ys) → All P xs × All P ys
All-append_inv P [] ys h = (tt, h)
All-append_inv P (x ∷ xs) ys (p, h) = let rest = All-append_inv P xs ys h in ((p, rest.0), rest.1)

each-visit_schema-constraints :
    (i : ℕ) (ss : List Schema) (c : CatalogCache)
    → All HasNamed (tables_of ss)
    → (each visit_schema i ss c).constraints ≡ index_constraints (tables_of ss) c.constraints
unfolding each
each-visit_schema-constraints i [] c h = unfold index_groups in refl
each-visit_schema-constraints i (s ∷ ss) c h =
    let split = All-append_inv HasNamed (tables_in s s.tables) (tables_of ss) h in
    each-visit_schema-constraints (i + 1) ss (visit_schema i s c) split.1
    ∙ ap (index_constraints (tables_of ss)) (visit_schema-constraints i s c split.0)
    ∙ sym (
        index_groups-append table_path column_path (λ g. g.1.constraints) constraint_name
          column_path_apart (tables_in s s.tables) (tables_of ss) c.constraints)

-- NewCatalogCache agrees with the constraints of each table of the catalog, if no two tables have
-- the same schema and name, the table carries its schema's name, all constraints of the catalog
-- have names, and those of the table are distinct.
pub new_catalog_cache-constraints :
    (catalog : Catalog) (i : ℕ) (s : Schema) (t : Table)
    → AreDistinct table_path (tables_of catalog.schemas)
    → All HasNamed (tables_of catalog.schemas)
    → get_elem? (tables_of catalog.schemas) i ≡ some (s, t)
    → t.table_schema ≡ s.schema_name
    → AreDistinct (λ x. column_path (s, t) (constraint_name x)) t.constraints
    → IsSynced constraint_ignored constraint_name
        (constraint_key t)
        (record { index = (new_catalog_cache catalog).constraints; items = t.constraints })
unfolding new_catalog_cache
new_catalog_cache-constraints catalog i s t dt named here owned d =
    subst
      (λ schema.
        IsSynced constraint_ignored constraint_name (λ n. schema ∷ t.table_name ∷ n ∷ [])
          (record { index = (new_catalog_cache catalog).constraints; items = t.constraints }))
      (sym owned)
      (index_from-IsSynced constraint_ignored constraint_name (column_path (s, t)) (λ n m e. cc)
        t.constraints _ d
        (λ n.
          ap (lookup (column_path (s, t) n))
            (each-visit_schema-constraints 0 catalog.schemas _ named)
          ∙ lookup-index_groups table_path column_path (λ g. g.1.constraints) constraint_name
              column_path_apart (tables_of catalog.schemas) i (s, t) n [] dt here))
