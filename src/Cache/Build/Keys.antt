-- ===== src/Cache/Build/Keys.antt =====
-- The foreign keys that NewCatalogCache writes down for each table.
use sqddl.Base.{
  ℕ, ◌+◌, Bool, true, false, List, [], ◌∷◌, ◌++◌, ◌≡◌, refl, sym, ap, ◌∙◌, if◌then◌else◌,
  Bool-cases, inl, inr, append_assoc, append-nil, arith, Bytes, text_eq, text_eq_iff,
}
use sqddl.Catalog.{Catalog, Schema, View, Table, Constraint, primary_key, foreign_key}
use sqddl.Cache.Maps.{Key, lookup, put, lookup-put, key_eq, key_eq_iff}
use sqddl.Cache.State.{CatalogCache}
use sqddl.Cache.Constraints.{positions, register_kind}
use sqddl.Cache.Build.{
  each, in_schema, visit_view, name_constraint, visit_constraint, visit_table, visit_schema,
  new_catalog_cache,
}
use sqddl.Cache.Build.Walk.{each-keeps, tables_in, tables_of, table_path}

-- the positions of the foreign keys of table `id`
abbrev pub held : Key → CatalogCache → List ℕ
held id c = positions (lookup id c.fkeys)

abbrev pub is_foreign : Constraint → Bool
is_foreign x = text_eq x.constraint_type foreign_key

-- `i`, where constraint `x` is a foreign key
abbrev pub single : ℕ → Bytes → List ℕ
single i type = if text_eq type foreign_key then i ∷ [] else []

-- The positions of the foreign keys among constraints, the first of which is at position `i`.
abbrev pub all_foreign : ℕ → List Constraint → List ℕ
all_foreign i [] = []
all_foreign i (x ∷ xs) = single i x.constraint_type ++ all_foreign (i + 1) xs

-- `more` behind `old` if `b`
abbrev pub grown : Bool → List ℕ → List ℕ → List ℕ
grown true old more = old ++ more
grown false old more = old

grown_nothing : (b : Bool) (old : List ℕ) → grown b old [] ≡ old
grown_nothing true old = append-nil old
grown_nothing false old = refl

grown_twice :
    (b : Bool) (old more last : List ℕ)
    → grown b (grown b old more) last ≡ grown b old (more ++ last)
grown_twice true old more last = append_assoc old more last
grown_twice false old more last = refl

pk_not_fk : (type : Bytes) → text_eq type primary_key ≡ true → text_eq type foreign_key ≡ false
unfolding text_eq
pk_not_fk type h = rw ((text_eq_iff type primary_key).0 h) refl

held-put :
    (id k : Key) (i : ℕ) (c : CatalogCache)
    → positions (lookup k (put id (held id c ++ i ∷ []) c.fkeys))
      ≡ grown (key_eq id k) (held k c) (i ∷ [])
held-put id k i c =
    ap positions (lookup-put id k (held id c ++ i ∷ []) c.fkeys) ∙ elim (Bool-cases (key_eq id k)) [
      | inl same ↦ rw same (ap (λ j. held j c ++ i ∷ []) ((key_eq_iff id k).0 same))
      | inr other ↦ rw other refl
    ]

held-register_kind :
    (id k : Key) (type : Bytes) (i : ℕ) (c : CatalogCache)
    → held k (register_kind id type i c) ≡ grown (key_eq id k) (held k c) (single i type)
unfolding register_kind
held-register_kind id k type i c = elim (Bool-cases (text_eq type primary_key)) [
  | inl pk ↦ rw (pk, pk_not_fk type pk) (sym (grown_nothing (key_eq id k) (held k c)))
  | inr not_pk ↦ elim (Bool-cases (text_eq type foreign_key)) [
    | inl fk ↦ rw (not_pk, fk) (held-put id k i c)
    | inr other ↦ rw (not_pk, other) (sym (grown_nothing (key_eq id k) (held k c)))
  ]
]

held-name_constraint :
    (s : Schema) (t : Table) (k : Key) (i : ℕ) (name : Bytes) (c : CatalogCache)
    → held k (name_constraint s t i name c) ≡ held k c
unfolding name_constraint
held-name_constraint s t k i [] c = refl
held-name_constraint s t k i (b ∷ name) c = refl

held-visit_constraint :
    (s : Schema) (t : Table) (k : Key) (i : ℕ) (x : Constraint) (c : CatalogCache)
    → held k (visit_constraint s t i x c)
      ≡ grown (key_eq (in_schema s t.table_name) k) (held k c) (single i x.constraint_type)
unfolding visit_constraint
held-visit_constraint s t k i x c =
    held-name_constraint s t k i x.constraint_name _
    ∙ held-register_kind (in_schema s t.table_name) k x.constraint_type i c

held-each_constraint :
    (s : Schema) (t : Table) (k : Key) (i : ℕ) (xs : List Constraint) (c : CatalogCache)
    → held k (each (visit_constraint s t) i xs c)
      ≡ grown (key_eq (in_schema s t.table_name) k) (held k c) (all_foreign i xs)
unfolding each
held-each_constraint s t k i [] c = sym (grown_nothing _ (held k c))
held-each_constraint s t k i (x ∷ xs) c =
    let b = key_eq (in_schema s t.table_name) k in
    held-each_constraint s t k (i + 1) xs (visit_constraint s t i x c)
    ∙ ap (λ old. grown b old (all_foreign (i + 1) xs)) (held-visit_constraint s t k i x c)
    ∙ grown_twice b (held k c) (single i x.constraint_type) (all_foreign (i + 1) xs)

held-visit_table :
    (s : Schema) (k : Key) (j : ℕ) (t : Table) (c : CatalogCache)
    → held k (visit_table s j t c)
      ≡ grown (key_eq (in_schema s t.table_name) k) (held k c) (all_foreign 0 t.constraints)
unfolding visit_table
held-visit_table s k j t c = held-each_constraint s t k 0 t.constraints _

-- What a walk over tables leaves for table `k`, from `old` on.
abbrev pub foreign_of : List (Schema × Table) → Key → List ℕ → List ℕ
foreign_of [] k old = old
foreign_of (g ∷ gs) k old =
    foreign_of gs k (grown (key_eq (table_path g) k) old (all_foreign 0 g.1.constraints))

foreign_of-append :
    (gs hs : List (Schema × Table)) (k : Key) (old : List ℕ)
    → foreign_of (gs ++ hs) k old ≡ foreign_of hs k (foreign_of gs k old)
foreign_of-append [] hs k old = refl
foreign_of-append (g ∷ gs) hs k old = foreign_of-append gs hs k _

held-each_table :
    (s : Schema) (k : Key) (j : ℕ) (ts : List Table) (c : CatalogCache)
    → held k (each (visit_table s) j ts c) ≡ foreign_of (tables_in s ts) k (held k c)
unfolding each
held-each_table s k j [] c = refl
held-each_table s k j (t ∷ ts) c =
    held-each_table s k (j + 1) ts (visit_table s j t c)
    ∙ ap (foreign_of (tables_in s ts) k) (held-visit_table s k j t c)

visit_view-fkeys :
    (s : Schema) (j : ℕ) (v : View) (c : CatalogCache) → (visit_view s j v c).fkeys ≡ c.fkeys
unfolding visit_view
visit_view-fkeys s j v c = ground arith

held-visit_view :
    (s : Schema) (k : Key) (j : ℕ) (v : View) (c : CatalogCache)
    → held k (visit_view s j v c) ≡ held k c
held-visit_view s k j v c = ap (λ m. positions (lookup k m)) (visit_view-fkeys s j v c)

held-visit_schema :
    (k : Key) (i : ℕ) (s : Schema) (c : CatalogCache)
    → held k (visit_schema i s c) ≡ foreign_of (tables_in s s.tables) k (held k c)
unfolding visit_schema
held-visit_schema k i s c =
    held-each_table s k 0 s.tables _
    ∙ ap (foreign_of (tables_in s s.tables) k)
        (each-keeps (held k) (visit_view s) (held-visit_view s k) 0 s.views _)

held-each_schema :
    (k : Key) (i : ℕ) (ss : List Schema) (c : CatalogCache)
    → held k (each visit_schema i ss c) ≡ foreign_of (tables_of ss) k (held k c)
unfolding each
held-each_schema k i [] c = refl
held-each_schema k i (s ∷ ss) c =
    held-each_schema k (i + 1) ss (visit_schema i s c)
    ∙ ap (foreign_of (tables_of ss) k) (held-visit_schema k i s c)
    ∙ sym (foreign_of-append (tables_in s s.tables) (tables_of ss) k (held k c))

pub held-new_catalog_cache :
    (catalog : Catalog) (k : Key)
    → held k (new_catalog_cache catalog) ≡ foreign_of (tables_of catalog.schemas) k []
unfolding new_catalog_cache lookup
held-new_catalog_cache catalog k = held-each_schema k 0 catalog.schemas _
