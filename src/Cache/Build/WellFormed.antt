-- ===== src/Cache/Build/WellFormed.antt =====
-- A catalog whose names are distinct, whose constraints have names and whose tables carry the names of
-- their schemas; and what the cache that NewCatalogCache makes of it finds: for
-- each kind of object the first live item of the name in its owner's slice.
use sqddl.Base.{
  ℕ, zero, suc, List, [], ◌∷◌, ◌++◌, some, ◌≡◌, refl, sym, ap, ◌∙◌, get_elem?, All, some-eq_of_eq,
  subst,
}
use sqddl.Cache.Build.{schema_id, in_schema, new_catalog_cache}
use sqddl.Cache.Build.Constraints.{HasNamed, new_catalog_cache-constraints}
use sqddl.Cache.Build.Correct.{new_catalog_cache-tables, new_catalog_cache-columns}
use sqddl.Cache.Build.Indexes.{
  owner_id, owner_key, table_owner, view_owners, table_owners, owners_of, new_catalog_cache-indexes,
}
use sqddl.Cache.Build.Positions.{AreDistinct}
use sqddl.Cache.Build.Walk.{tables_in, tables_of, table_path, column_path}
use sqddl.Cache.Constraints.{constraint_ignored, constraint_name, constraint_key}
use sqddl.Cache.Instances.{table_kind, column_kind}
use sqddl.Cache.Kinds.{Synced}
use sqddl.Cache.Schemas.{table_name}
use sqddl.Cache.Slots.Laws.{IsSynced}
use sqddl.Cache.State.{CatalogCache}
use sqddl.Cache.Tables.{column_name, index_ignored, index_name, index_key}
use sqddl.Catalog.{Catalog, Schema, Table}

-- The table carries its schema's name, and its columns, constraints and indexes have distinct names.
abbrev pub HasDistinctParts : Schema × Table → Type 0
HasDistinctParts g =
    (g.1.table_schema ≡ g.0.schema_name)
    × AreDistinct (λ x. column_path g (column_name x)) g.1.columns
    × AreDistinct (λ x. column_path g (constraint_name x)) g.1.constraints
    × AreDistinct (λ x. owner_key (table_owner g.0 g.1) (index_name x)) g.1.indexes

abbrev pub HasDistinctTables : Schema → Type 0
HasDistinctTables s = AreDistinct (λ t. in_schema s (table_name t)) s.tables

pub record IsWellFormed (catalog : Catalog) : Type 0 where
  pub schemas : AreDistinct schema_id catalog.schemas
  pub tables : All HasDistinctTables catalog.schemas
  pub paths : AreDistinct table_path (tables_of catalog.schemas)
  pub owners : AreDistinct owner_id (owners_of catalog.schemas)
  pub named : All HasNamed (tables_of catalog.schemas)
  pub parts : All HasDistinctParts (tables_of catalog.schemas)

-- The cache agrees with the parts of a table.
pub record AgreesOnTable (cache : CatalogCache) (t : Table) : Type 0 where
  pub columns : Synced column_kind cache t
  pub constraints :
      IsSynced constraint_ignored constraint_name
        (constraint_key t)
        (record { index = cache.constraints; items = t.constraints })
  pub indexes :
      IsSynced index_ignored index_name
        (index_key t)
        (record { index = cache.indexes; items = t.indexes })

-- The cache agrees with the tables of a schema and with the parts of each.
pub record Agrees (cache : CatalogCache) (s : Schema) : Type 0 where
  pub tables : Synced table_kind cache s
  pub on_table : (i : ℕ) (t : Table) → get_elem? s.tables i ≡ some t → AgreesOnTable cache t

pub All-get_elem? {ℓ κ} :
    {A : Type ℓ} (P : A → Type κ) (xs : List A) (i : ℕ) (a : A)
    → All P xs
    → get_elem? xs i ≡ some a
    → P a
All-get_elem? P [] i a h e = cc
All-get_elem? P (x ∷ xs) zero a (p, h) e = subst P (some-eq_of_eq e) p
All-get_elem? P (x ∷ xs) (suc i) a (p, h) e = All-get_elem? P xs i a h e

get_elem?-append_right {ℓ} :
    {A : Type ℓ} (xs ys : List A) (i : ℕ) → (k : ℕ) × (get_elem? (xs ++ ys) k ≡ get_elem? ys i)
get_elem?-append_right [] ys i = (i, refl)
get_elem?-append_right (x ∷ xs) ys i = let (k, e) = get_elem?-append_right xs ys i in (suc k, e)

get_elem?-append_front {ℓ} :
    {A : Type ℓ} (xs ys : List A) (i : ℕ) {a : A}
    → get_elem? xs i ≡ some a
    → get_elem? (xs ++ ys) i ≡ some a
get_elem?-append_front [] ys i e = cc
get_elem?-append_front (x ∷ xs) ys zero e = e
get_elem?-append_front (x ∷ xs) ys (suc i) e = get_elem?-append_front xs ys i e

-- A table of a schema of the catalog is among the tables of the catalog.
get_elem?-tables_in :
    (s : Schema) (ts : List Table) (j : ℕ) (t : Table)
    → get_elem? ts j ≡ some t
    → get_elem? (tables_in s ts) j ≡ some (s, t)
get_elem?-tables_in s [] j t e = cc
get_elem?-tables_in s (u ∷ ts) zero t e = ap (λ u. some (s, u)) (some-eq_of_eq e)
get_elem?-tables_in s (u ∷ ts) (suc j) t e = get_elem?-tables_in s ts j t e

pub get_elem?-tables_of :
    (ss : List Schema) (i : ℕ) (s : Schema) (j : ℕ) (t : Table)
    → get_elem? ss i ≡ some s
    → get_elem? s.tables j ≡ some t
    → (k : ℕ) × (get_elem? (tables_of ss) k ≡ some (s, t))
get_elem?-tables_of [] i s j t here e = cc
get_elem?-tables_of (r ∷ ss) zero s j t here e = (
  j,
  get_elem?-append_front _ _ j (
      subst (λ r. get_elem? (tables_in r r.tables) j ≡ some (s, t)) (sym (some-eq_of_eq here))
        (get_elem?-tables_in s s.tables j t e)),
)
get_elem?-tables_of (r ∷ ss) (suc i) s j t here e =
    let (k, rest) = get_elem?-tables_of ss i s j t here e in
    let (m, moved) = get_elem?-append_right (tables_in r r.tables) (tables_of ss) k in
    (m, moved ∙ rest)

get_elem?-table_owners :
    (s : Schema) (ts : List Table) (j : ℕ) (t : Table)
    → get_elem? ts j ≡ some t
    → get_elem? (table_owners s ts) j ≡ some (table_owner s t)
get_elem?-table_owners s [] j t e = cc
get_elem?-table_owners s (u ∷ ts) zero t e = ap (λ u. some (table_owner s u)) (some-eq_of_eq e)
get_elem?-table_owners s (u ∷ ts) (suc j) t e = get_elem?-table_owners s ts j t e

get_elem?-owners_of :
    (ss : List Schema) (i : ℕ) (s : Schema) (j : ℕ) (t : Table)
    → get_elem? ss i ≡ some s
    → get_elem? s.tables j ≡ some t
    → (k : ℕ) × (get_elem? (owners_of ss) k ≡ some (table_owner s t))
get_elem?-owners_of [] i s j t here e = cc
get_elem?-owners_of (r ∷ ss) zero s j t here e =
    let (k, moved) = get_elem?-append_right (view_owners s s.views) (table_owners s s.tables) j in
    (
      k,
      get_elem?-append_front _ _ k (
          subst
            (λ r.
              get_elem? (view_owners r r.views ++ table_owners r r.tables) k
              ≡ some (table_owner s t))
            (sym (some-eq_of_eq here)) (moved ∙ get_elem?-table_owners s s.tables j t e)),
    )
get_elem?-owners_of (r ∷ ss) (suc i) s j t here e =
    let (k, rest) = get_elem?-owners_of ss i s j t here e in
    let (m, moved) =
      get_elem?-append_right (view_owners r r.views ++ table_owners r r.tables) (owners_of ss) k in
    (m, moved ∙ rest)

-- The cache that NewCatalogCache makes of a well-formed catalog agrees with each of its schemas.
pub new_catalog_cache-Agrees :
    (catalog : Catalog) (i : ℕ) (s : Schema)
    → IsWellFormed catalog
    → get_elem? catalog.schemas i ≡ some s
    → Agrees (new_catalog_cache catalog) s
new_catalog_cache-Agrees catalog i s w here = record {
  tables =
      new_catalog_cache-tables catalog i s w.schemas here
        (All-get_elem? HasDistinctTables catalog.schemas i s w.tables here);
  on_table = λ j t e.
      let (k, at) = get_elem?-tables_of catalog.schemas i s j t here e in
      let (m, owned) = get_elem?-owners_of catalog.schemas i s j t here e in
      let parts = All-get_elem? HasDistinctParts (tables_of catalog.schemas) k (s, t) w.parts at in
      record {
        columns = new_catalog_cache-columns catalog k s t w.paths at parts.0 parts.1;
        constraints =
            new_catalog_cache-constraints catalog k s t w.paths w.named at parts.0 parts.2;
        indexes = new_catalog_cache-indexes catalog m s t w.owners owned parts.0 parts.3;
      };
}
