-- ===== src/Cache/Build/ForeignKeys.antt =====
-- GetForeignKeys on what NewCatalogCache makes.
use sqddl.Base.{
  ℕ, zero, suc, ◌+◌, Bool, true, false, not, ◌&&◌, List, [], ◌∷◌, some, ◌≡◌, ◌≢◌, refl, sym, ap,
  ◌∙◌, if◌then◌else◌, Bool-cases, inl, inr, get_elem?, All, arith, subst, some-eq_of_eq,
}
use sqddl.Catalog.{Catalog, Schema, Table, Constraint}
use sqddl.Cache.Maps.{Key, lookup, key_eq, key_eq_iff}
use sqddl.Cache.Slots.{ret}
use sqddl.Cache.Constraints.{positions, keep_live, live_keys, get_foreign_keys}
use sqddl.Cache.Build.{new_catalog_cache}
use sqddl.Cache.Build.Positions.{AreDistinct}
use sqddl.Cache.Build.Walk.{tables_of, table_path}
use sqddl.Cache.Build.Keys.{is_foreign, all_foreign, foreign_of, held-new_catalog_cache}

-- Those of them that are not ignored.
abbrev pub live_foreign : ℕ → List Constraint → List ℕ
live_foreign i [] = []
live_foreign i (x ∷ xs) =
    let rest = live_foreign (i + 1) xs in if is_foreign x && not x.ignore then i ∷ rest else rest

differs : (k j : Key) → k ≢ j → key_eq k j ≡ false
differs k j ne = ground (arith, key_eq_iff k j)

-- Tables of another name add nothing.
foreign_of_others :
    (gs : List (Schema × Table)) (k : Key) (old : List ℕ)
    → All (λ g. table_path g ≢ k) gs
    → foreign_of gs k old ≡ old
foreign_of_others [] k old h = refl
foreign_of_others (g ∷ gs) k old (p, h) =
    rw (differs (table_path g) k p) (foreign_of_others gs k old h)

All-get_elem? :
    {A : Type 0} (P : A → Type 0) (xs : List A) (i : ℕ) (a : A)
    → All P xs
    → get_elem? xs i ≡ some a
    → P a
All-get_elem? P [] i a h e = absurd cc
All-get_elem? P (x ∷ xs) zero a (p, h) e = subst P (some-eq_of_eq e) p
All-get_elem? P (x ∷ xs) (suc i) a (p, h) e = All-get_elem? P xs i a h e

foreign_of-first :
    (h : Schema × Table) (gs : List (Schema × Table))
    → All (λ g. table_path g ≢ table_path h) gs
    → foreign_of (h ∷ gs) (table_path h) [] ≡ all_foreign 0 h.1.constraints
foreign_of-first h gs p =
    rw ((key_eq_iff (table_path h) (table_path h)).1 refl)
      (foreign_of_others gs (table_path h) (all_foreign 0 h.1.constraints) p)

foreign_of-get_elem? :
    (gs : List (Schema × Table)) (i : ℕ) (g : Schema × Table)
    → AreDistinct table_path gs
    → get_elem? gs i ≡ some g
    → foreign_of gs (table_path g) [] ≡ all_foreign 0 g.1.constraints
foreign_of-get_elem? [] i g d e = absurd cc
foreign_of-get_elem? (h ∷ gs) zero g (p, d) e =
    subst (λ g. foreign_of (h ∷ gs) (table_path g) [] ≡ all_foreign 0 g.1.constraints)
      (some-eq_of_eq e) (foreign_of-first h gs p)
foreign_of-get_elem? (h ∷ gs) (suc i) g (p, d) e =
    let ne = All-get_elem? (λ y. table_path y ≢ table_path h) gs i g p e in
    rw (differs (table_path h) (table_path g) (λ same. ne (sym same)))
      (foreign_of-get_elem? gs i g d e)

plus_zero : (i : ℕ) → i + 0 ≡ i
plus_zero i = omega arith

plus_suc : (i j : ℕ) → i + suc j ≡ i + 1 + j
plus_suc i j = omega arith

zero_plus : (j : ℕ) → j ≡ 0 + j
zero_plus j = omega arith

kept_if :
    (b : Bool) (i : ℕ) (rest : List ℕ)
    → (if b then rest else i ∷ rest) ≡ (if not b then i ∷ rest else rest)
kept_if true i rest = refl
kept_if false i rest = refl

live_keys-live_foreign :
    (items : List Constraint) (i : ℕ) (xs : List Constraint)
    → ((j : ℕ) (x : Constraint) → get_elem? xs j ≡ some x → get_elem? items (i + j) ≡ some x)
    → live_keys items (all_foreign i xs) ≡ ret (live_foreign i xs)
unfolding live_keys keep_live
live_keys-live_foreign items i [] h = refl
live_keys-live_foreign items i (x ∷ xs) h =
    let at_x : get_elem? items i ≡ some x =
      subst (λ n. get_elem? items n ≡ some x) (plus_zero i) (h 0 x refl) in
    let ih =
      live_keys-live_foreign items (i + 1) xs
        (λ j y e. subst (λ n. get_elem? items n ≡ some y) (plus_suc i j) (h (suc j) y e)) in
    elim (Bool-cases (is_foreign x)) [
      | inl fk ↦ rw (fk, ih, at_x) (ap ret (kept_if x.ignore i (live_foreign (i + 1) xs)))
      | inr other ↦ rw other ih
    ]

-- On what NewCatalogCache makes, GetForeignKeys of a table returns its foreign keys that are not
-- ignored, each once and in the order of the table's constraints, and does not panic. No two tables
-- have the same schema and name, and the table carries its schema's name.
pub new_catalog_cache-foreign_keys :
    (catalog : Catalog) (i : ℕ) (s : Schema) (t : Table)
    → AreDistinct table_path (tables_of catalog.schemas)
    → get_elem? (tables_of catalog.schemas) i ≡ some (s, t)
    → t.table_schema ≡ s.schema_name
    → get_foreign_keys (new_catalog_cache catalog) (some t) ≡ ret (live_foreign 0 t.constraints)
unfolding get_foreign_keys
new_catalog_cache-foreign_keys catalog i s t d here owned =
    let keys = (new_catalog_cache catalog).fkeys in
    ap (λ schema. live_keys t.constraints (positions (lookup (schema ∷ t.table_name ∷ []) keys)))
      owned
    ∙ ap (live_keys t.constraints) (
        held-new_catalog_cache catalog (table_path (s, t))
        ∙ foreign_of-get_elem? (tables_of catalog.schemas) i (s, t) d here)
    ∙ live_keys-live_foreign t.constraints 0 t.constraints
        (λ j x e. subst (λ n. get_elem? t.constraints n ≡ some x) (zero_plus j) (e))
