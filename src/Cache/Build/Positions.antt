-- ===== src/Cache/Build/Positions.antt =====
-- What `index_from` writes: for each key the last position that has it.
use sqddl.Base.{
  ℕ, zero, suc, ◌+◌, List, [], ◌∷◌, some, ◌≡◌, ◌≢◌, ◌⊎◌, inl, inr, refl, ap, ◌∙◌, Bool-cases,
  get_elem?, All, arith, some-eq_of_eq,
}
use sqddl.Cache.Maps.{
  Key, GoMap, lookup, put, lookup-put, lookup-put_self, lookup-put_ne, key_eq, key_eq_iff,
}
use sqddl.Cache.Build.{index_from}

module _ {A : Type 0} (key : A → Key) where
  abbrev pub AreDistinct : List A → Type 0
  AreDistinct [] = Unit
  AreDistinct (x ∷ xs) = All (λ y. key y ≢ key x) xs × AreDistinct xs

  -- A key that no item has keeps its position.
  pub lookup-index_from_ne :
      (i : ℕ) (xs : List A) (m : GoMap ℕ) (k : Key)
      → All (λ y. key y ≢ k) xs
      → lookup k (index_from key i xs m) ≡ lookup k m
  unfolding index_from
  lookup-index_from_ne i [] m k h = refl
  lookup-index_from_ne i (x ∷ xs) m k (p, h) =
      lookup-index_from_ne (i + 1) xs (put (key x) i m) k h ∙ lookup-put_ne (key x) k i m p

  -- The item at position `j` is found, if the keys are distinct.
  pub lookup-index_from :
      (i : ℕ) (xs : List A) (m : GoMap ℕ) (j : ℕ) (a : A)
      → AreDistinct xs
      → get_elem? xs j ≡ some a
      → lookup (key a) (index_from key i xs m) ≡ some (i + j)
  unfolding index_from
  lookup-index_from i [] m j a d e = cc
  lookup-index_from i (x ∷ xs) m zero a (p, d) e =
      let same : x ≡ a = some-eq_of_eq e in
      rw (← same) (
        lookup-index_from_ne (i + 1) xs (put (key x) i m) (key x) p
        ∙ lookup-put_self (key x) i m
        ∙ ap some (omega arith))
  lookup-index_from i (x ∷ xs) m (suc j) a (p, d) e =
      lookup-index_from (i + 1) xs (put (key x) i m) j a d e ∙ ap some (omega arith)

  -- A position that is found is that of an item with the key, or was there before.
  pub index_from_sound :
      (i : ℕ) (xs : List A) (m : GoMap ℕ) (k : Key) (p : ℕ)
      → lookup k (index_from key i xs m) ≡ some p
      → ((j : ℕ) × (a : A) × (p ≡ i + j) × (get_elem? xs j ≡ some a) × (key a ≡ k))
        ⊎ (lookup k m ≡ some p)
  unfolding index_from
  index_from_sound i [] m k p e = inr e
  index_from_sound i (x ∷ xs) m k p e = elim (index_from_sound (i + 1) xs (put (key x) i m) k p e) [
    | inl (j, a, q, here, same) ↦ inl (suc j, a, omega arith, here, same)
    | inr before ↦ elim (Bool-cases (key_eq (key x) k)) [
      | inl same ↦
          let eq = (key_eq_iff (key x) k).0 same in
          inl (zero, x, ground (arith, lookup-put (key x) k i m), refl, eq)
      | inr other ↦ inr (ground (arith, lookup-put (key x) k i m))
    ]
  ]

  -- The result at a key depends on the map through that key only.
  pub index_from_cong :
      (i : ℕ) (xs : List A) (m m' : GoMap ℕ) (k : Key)
      → lookup k m ≡ lookup k m'
      → lookup k (index_from key i xs m) ≡ lookup k (index_from key i xs m')
  unfolding index_from
  index_from_cong i [] m m' k h = h
  index_from_cong i (x ∷ xs) m m' k h =
      index_from_cong (i + 1) xs (put (key x) i m) (put (key x) i m') k
        (ground (arith, lookup-put (key x) k i m, lookup-put (key x) k i m'))
