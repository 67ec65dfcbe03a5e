-- ===== src/Cache/Build/Groups.antt =====
-- One map that is filled from many slices, such as the tables of every schema: at the keys of one
-- owner it is as if it had been filled from that owner's slice alone.
use sqddl.Base.{
  ℕ, zero, suc, ◌+◌, Bool, List, [], ◌∷◌, ◌++◌, some, ◌≡◌, ◌≢◌, inl, inr, refl, sym, ap, ◌∙◌,
  get_elem?, All, Bytes, arith, some-eq_of_eq,
}
use sqddl.Cache.Maps.{Key, GoMap, lookup}
use sqddl.Cache.Slots.Laws.{IsSynced}
use sqddl.Cache.Build.{index_from}
use sqddl.Cache.Build.Positions.{
  AreDistinct, lookup-index_from_ne, lookup-index_from, index_from_sound, index_from_cong,
}

All-of {ℓ κ} : {A : Type ℓ} (P : A → Type κ) (xs : List A) → ((x : A) → P x) → All P xs
All-of P [] h = tt
All-of P (x ∷ xs) h = (h x, All-of P xs h)

module _ {A : Type 0} (ignored : A → Bool) (name : A → Bytes) (key : Bytes → Key)
    (distinct : (n m : Bytes) → key n ≡ key m → n ≡ m) where
  -- The index of one slice of distinct names is in step with it.
  pub index_from-IsSynced :
      (items : List A) (index : GoMap ℕ)
      → AreDistinct (λ a. key (name a)) items
      → ((n : Bytes)
          → lookup (key n) index ≡ lookup (key n) (index_from (λ a. key (name a)) 0 items []))
      → IsSynced ignored name key (record { index = index; items = items })
  index_from-IsSynced items index d agree = record {
    sound = λ n i e.
        elim (index_from_sound (λ a. key (name a)) 0 items [] (key n) i (sym (agree n) ∙ e)) [
          | inl (j, a, p, here, same) ↦
              (a, ap (get_elem? items) (position i j p) ∙ here, distinct (name a) n same)
          | inr before ↦ absurd (none_in_empty n i before)
        ];
    complete = λ n i a l.
        agree n
        ∙ rw (← l.named) (
            lookup-index_from (λ a. key (name a)) 0 items [] i a d l.stands
            ∙ ap some (omega arith));
  }
    where
      position : (i j : ℕ) → i ≡ 0 + j → i ≡ j
      position i j p = omega arith

      none_in_empty : (n : Bytes) (i : ℕ) → lookup (key n) [] ≡ some i → ⊥
      none_in_empty n i e = unfold lookup in cc

module _ {G A : Type 0} (id : G → Key) (key : G → Bytes → Key) (items : G → List A)
    (name : A → Bytes) (apart : (g h : G) (n m : Bytes) → key g n ≡ key h m → id g ≡ id h) where
  unfoldable pub index_groups : List G → GoMap ℕ → GoMap ℕ
  index_groups [] m = m
  index_groups (g ∷ gs) m = index_groups gs (index_from (λ a. key g (name a)) 0 (items g) m)

  pub index_groups-append :
      (gs hs : List G) (m : GoMap ℕ)
      → index_groups (gs ++ hs) m ≡ index_groups hs (index_groups gs m)
  unfolding index_groups
  index_groups-append [] hs m = refl
  index_groups-append (g ∷ gs) hs m =
      index_groups-append gs hs (index_from (λ a. key g (name a)) 0 (items g) m)

  other_group :
      (g h : G) (n : Bytes) (m : GoMap ℕ)
      → id h ≢ id g
      → lookup (key g n) (index_from (λ a. key h (name a)) 0 (items h) m) ≡ lookup (key g n) m
  other_group g h n m ne =
      lookup-index_from_ne (λ a. key h (name a)) 0 (items h) m (key g n)
        (All-of _ (items h) (λ a e. ne (apart h g (name a) n e)))

  lookup-index_groups_ne :
      (gs : List G) (g : G) (n : Bytes) (m : GoMap ℕ)
      → All (λ h. id h ≢ id g) gs
      → lookup (key g n) (index_groups gs m) ≡ lookup (key g n) m
  unfolding index_groups
  lookup-index_groups_ne [] g n m ne = refl
  lookup-index_groups_ne (h ∷ gs) g n m (here, ne) =
      lookup-index_groups_ne gs g n (index_from (λ a. key h (name a)) 0 (items h) m) ne
      ∙ other_group g h n m here

  pub lookup-index_groups :
      (gs : List G) (i : ℕ) (g : G) (n : Bytes) (m : GoMap ℕ)
      → AreDistinct id gs
      → get_elem? gs i ≡ some g
      → lookup (key g n) (index_groups gs m)
        ≡ lookup (key g n) (index_from (λ a. key g (name a)) 0 (items g) m)
  unfolding index_groups
  lookup-index_groups [] i g n m d e = cc
  lookup-index_groups (h ∷ gs) zero g n m (ne, d) e =
      let same : h ≡ g = some-eq_of_eq e in
      rw (← same)
        (lookup-index_groups_ne gs h n (index_from (λ a. key h (name a)) 0 (items h) m) ne)
  lookup-index_groups (h ∷ gs) (suc i) g n m (ne, d) e =
      lookup-index_groups gs i g n (index_from (λ a. key h (name a)) 0 (items h) m) d e
      ∙ index_from_cong (λ a. key g (name a)) 0 (items g)
          (index_from (λ a. key h (name a)) 0 (items h) m) m (key g n)
          (other_group g h n m (distinct_at gs i ne e))
    where
      distinct_at :
          (gs : List G) (i : ℕ) → All (λ k. id k ≢ id h) gs → get_elem? gs i ≡ some g → id h ≢ id g
      distinct_at [] i a e = cc
      distinct_at (k ∷ gs) zero (p, a) e = λ s. p (ap id (some-eq_of_eq e) ∙ sym s)
      distinct_at (k ∷ gs) (suc i) (p, a) e = distinct_at gs i a e
