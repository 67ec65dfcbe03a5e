-- ===== src/Cache/Build/Walk.antt =====
-- The maps that the walk of NewCatalogCache leaves are those that `index_from` and `index_groups`
-- fill, since each step of the walk writes its own maps only.
use sqddl.Base.{ℕ, ◌+◌, List, [], ◌∷◌, ◌++◌, ◌≡◌, refl, sym, ap, ◌∙◌, Bytes, arith}
use sqddl.Catalog.{Schema, View, Table, Column, Constraint}
use sqddl.Cache.Maps.{Key, GoMap, put}
use sqddl.Cache.State.{CatalogCache}
use sqddl.Cache.Constraints.{register_kind}
use sqddl.Cache.Schemas.{table_name}
use sqddl.Cache.Tables.{column_name}
use sqddl.Cache.Build.{
  each, index_from, schema_id, in_schema, in_object, visit_view, name_constraint, visit_constraint,
  visit_table, visit_schema,
}
use sqddl.Cache.Build.Groups.{index_groups, index_groups-append}

-- A part of the state that no visit writes is kept by the loop.
pub each-keeps :
    {A X : Type 0} (part : CatalogCache → X) (visit : ℕ → A → CatalogCache → CatalogCache)
    → ((i : ℕ) (x : A) (c : CatalogCache) → part (visit i x c) ≡ part c)
    → (i : ℕ) (xs : List A) (c : CatalogCache) → part (each visit i xs c) ≡ part c
unfolding each
each-keeps part visit keep i [] c = refl
each-keeps part visit keep i (x ∷ xs) c =
    each-keeps part visit keep (i + 1) xs (visit i x c) ∙ keep i x c

-- A map that each visit writes at one key is filled by `index_from`.
pub each-index_from :
    {A : Type 0} (part : CatalogCache → GoMap ℕ) (key : A → Key)
    (visit : ℕ → A → CatalogCache → CatalogCache)
    → ((i : ℕ) (x : A) (c : CatalogCache) → part (visit i x c) ≡ put (key x) i (part c))
    → (i : ℕ) (xs : List A) (c : CatalogCache)
    → part (each visit i xs c) ≡ index_from key i xs (part c)
unfolding each index_from
each-index_from part key visit keep i [] c = refl
each-index_from part key visit keep i (x ∷ xs) c =
    each-index_from part key visit keep (i + 1) xs (visit i x c)
    ∙ ap (index_from key (i + 1) xs) (keep i x c)

-- The maps of the objects that the theorems below are about.
record Maps : Type 0 where
  of_schemas : GoMap ℕ
  of_tables : GoMap ℕ
  of_columns : GoMap ℕ

abbrev maps : CatalogCache → Maps
maps c = record { of_schemas = c.schemas; of_tables = c.tables; of_columns = c.columns }

visit_constraint-maps :
    (s : Schema) (t : Table) (k : ℕ) (x : Constraint) (c : CatalogCache)
    → maps (visit_constraint s t k x c) ≡ maps c
unfolding visit_constraint
visit_constraint-maps s t k x c =
    named k x.constraint_name (register_kind (in_schema s t.table_name) x.constraint_type k c)
    ∙ registered (in_schema s t.table_name) x.constraint_type k c
  where
    named : (k : ℕ) (name : Bytes) (c : CatalogCache) → maps (name_constraint s t k name c) ≡ maps c
    named k [] c = unfold name_constraint in refl
    named k (b ∷ name) c = unfold name_constraint in refl

    registered :
        (id : Key) (type : Bytes) (k : ℕ) (c : CatalogCache)
        → maps (register_kind id type k c) ≡ maps c
    registered id type k c = unfold register_kind in ground arith

visit_view-maps :
    (s : Schema) (j : ℕ) (v : View) (c : CatalogCache) → maps (visit_view s j v c) ≡ maps c
unfolding visit_view
visit_view-maps s j v c = ground arith

visit_table-maps :
    (s : Schema) (j : ℕ) (t : Table) (c : CatalogCache)
    → maps (visit_table s j t c) ≡ record {
      of_schemas = c.schemas;
      of_tables = put (in_schema s t.table_name) j c.tables;
      of_columns =
          index_from (λ (x : Column). in_object s t.table_name x.column_name) 0 t.columns c.columns;
    }
unfolding visit_table
visit_table-maps s j t c =
    each-keeps maps (visit_constraint s t) (visit_constraint-maps s t) 0 t.constraints _

each-visit_table-tables :
    (s : Schema) (j : ℕ) (ts : List Table) (c : CatalogCache)
    → (each (visit_table s) j ts c).tables
      ≡ index_from (λ t. in_schema s t.table_name) j ts c.tables
each-visit_table-tables s =
    each-index_from (λ c. c.tables) (λ t. in_schema s t.table_name) (visit_table s)
      (λ j t c. ap (λ m. m.of_tables) (visit_table-maps s j t c))

each-visit_table-schemas :
    (s : Schema) (j : ℕ) (ts : List Table) (c : CatalogCache)
    → (each (visit_table s) j ts c).schemas ≡ c.schemas
each-visit_table-schemas s =
    each-keeps (λ c. c.schemas) (visit_table s)
      (λ j t c. ap (λ m. m.of_schemas) (visit_table-maps s j t c))

each-visit_view-maps :
    (s : Schema) (j : ℕ) (vs : List View) (c : CatalogCache)
    → maps (each (visit_view s) j vs c) ≡ maps c
each-visit_view-maps s = each-keeps maps (visit_view s) (visit_view-maps s)

-- The tables of a catalog, each with its schema.
abbrev pub tables_in : Schema → List Table → List (Schema × Table)
tables_in s [] = []
tables_in s (t ∷ ts) = (s, t) ∷ tables_in s ts

abbrev pub tables_of : List Schema → List (Schema × Table)
tables_of [] = []
tables_of (s ∷ ss) = tables_in s s.tables ++ tables_of ss

abbrev pub table_path : Schema × Table → Key
table_path g = g.0.schema_name ∷ g.1.table_name ∷ []

abbrev pub column_path : Schema × Table → Bytes → Key
column_path g = in_object g.0 g.1.table_name

pub in_schema_apart :
    (g h : Schema) (n m : Bytes) → in_schema g n ≡ in_schema h m → schema_id g ≡ schema_id h
in_schema_apart g h n m e = cc

pub column_path_apart :
    (g h : Schema × Table) (n m : Bytes)
    → column_path g n ≡ column_path h m
    → table_path g ≡ table_path h
column_path_apart g h n m e = cc

abbrev pub index_tables : List Schema → GoMap ℕ → GoMap ℕ
index_tables = index_groups schema_id in_schema (λ s. s.tables) table_name in_schema_apart

abbrev pub index_columns : List (Schema × Table) → GoMap ℕ → GoMap ℕ
index_columns = index_groups table_path column_path (λ g. g.1.columns) column_name column_path_apart

each-visit_table-columns :
    (s : Schema) (j : ℕ) (ts : List Table) (c : CatalogCache)
    → (each (visit_table s) j ts c).columns ≡ index_columns (tables_in s ts) c.columns
unfolding each index_groups
each-visit_table-columns s j [] c = refl
each-visit_table-columns s j (t ∷ ts) c =
    each-visit_table-columns s (j + 1) ts (visit_table s j t c)
    ∙ ap (index_columns (tables_in s ts)) (ap (λ m. m.of_columns) (visit_table-maps s j t c))

pub visit_schema-schemas :
    (i : ℕ) (s : Schema) (c : CatalogCache)
    → (visit_schema i s c).schemas ≡ put (schema_id s) i c.schemas
unfolding visit_schema
visit_schema-schemas i s c =
    each-visit_table-schemas s 0 s.tables _
    ∙ ap (λ m. m.of_schemas) (each-visit_view-maps s 0 s.views _)

visit_schema-tables :
    (i : ℕ) (s : Schema) (c : CatalogCache)
    → (visit_schema i s c).tables ≡ index_from (λ t. in_schema s t.table_name) 0 s.tables c.tables
unfolding visit_schema
visit_schema-tables i s c =
    each-visit_table-tables s 0 s.tables _
    ∙ ap (index_from (λ t. in_schema s t.table_name) 0 s.tables)
        (ap (λ m. m.of_tables) (each-visit_view-maps s 0 s.views _))

visit_schema-columns :
    (i : ℕ) (s : Schema) (c : CatalogCache)
    → (visit_schema i s c).columns ≡ index_columns (tables_in s s.tables) c.columns
unfolding visit_schema
visit_schema-columns i s c =
    each-visit_table-columns s 0 s.tables _
    ∙ ap (index_columns (tables_in s s.tables))
        (ap (λ m. m.of_columns) (each-visit_view-maps s 0 s.views _))

pub each-visit_schema-tables :
    (i : ℕ) (ss : List Schema) (c : CatalogCache)
    → (each visit_schema i ss c).tables ≡ index_tables ss c.tables
unfolding each index_groups
each-visit_schema-tables i [] c = refl
each-visit_schema-tables i (s ∷ ss) c =
    each-visit_schema-tables (i + 1) ss (visit_schema i s c)
    ∙ ap (index_tables ss) (visit_schema-tables i s c)

pub each-visit_schema-columns :
    (i : ℕ) (ss : List Schema) (c : CatalogCache)
    → (each visit_schema i ss c).columns ≡ index_columns (tables_of ss) c.columns
unfolding each
each-visit_schema-columns i [] c = unfold index_groups in refl
each-visit_schema-columns i (s ∷ ss) c =
    each-visit_schema-columns (i + 1) ss (visit_schema i s c)
    ∙ ap (index_columns (tables_of ss)) (visit_schema-columns i s c)
    ∙ sym (
        index_groups-append table_path column_path (λ g. g.1.columns) column_name column_path_apart
          (tables_in s s.tables) (tables_of ss) c.columns)
