-- ===== src/Cache/Slots/Laws.antt =====
-- The invariant that ties a map of the cache to its slice, and what the shared operations do.
use sqddl.Base.{
  ℕ, Bool, false, Option, none, some, ◌≡◌, ◌≢◌, inl, inr, sym, ap, ◌∙◌, length, get_elem?,
  Bool-cases, some-eq_of_eq, false≢true, subst, get_elem?-append_inv, Option-cases,
  get_elem?-append_end, get_elem?-append_left,
}
use sqddl.Cache.Maps.{Key, lookup, put, lookup-put_self, lookup-put_ne, key_eq, key_eq_iff}
use sqddl.Cache.Slots.{ret, Slot, check_item, check_position, get, add}

module _ {A N : Type 0} (ignored : A → Bool) (name : A → N) (key : N → Key) where
  -- Item `a` stands at position `i`, is live and has the name `n`.
  pub record IsLive (slot : Slot A) (n : N) (i : ℕ) (a : A) : Type 0 where
    pub stands : get_elem? slot.items i ≡ some a
    pub live : ignored a ≡ false
    pub named : name a ≡ n

  -- What the map says of a name is an item of that name, and every live item is where the map says.
  pub record IsSynced (slot : Slot A) : Type 0 where
    pub sound :
        (n : N) (i : ℕ)
        → lookup (key n) slot.index ≡ some i
        → (a : A) × (get_elem? slot.items i ≡ some a) × (name a ≡ n)
    pub complete : (n : N) (i : ℕ) (a : A) → IsLive slot n i a → lookup (key n) slot.index ≡ some i

  -- A found position holds a live item of the name; otherwise there is none.
  pub data Finds (slot : Slot A) (n : N) : Option ℕ → Type 0 where
    at : (i : ℕ) (a : A) → IsLive slot n i a → Finds slot n (some i)
    nowhere : ((i : ℕ) (a : A) → IsLive slot n i a → ⊥) → Finds slot n none

module _ {A N : Type 0} (ignored : A → Bool) (name : A → N) (key : N → Key)
    (distinct : (n m : N) → key n ≡ key m → n ≡ m) where
  check_item-Finds :
      (slot : Slot A) (n : N) (i : ℕ) (a : A)
      → IsSynced ignored name key slot
      → lookup (key n) slot.index ≡ some i
      → get_elem? slot.items i ≡ some a
      → name a ≡ n
      → (found : Option ℕ) × (check_item ignored i (some a) ≡ ret found)
        × Finds ignored name key slot n found
  unfolding check_item
  check_item-Finds slot n i a s e here named = elim (Bool-cases (ignored a)) [
    | inl dead ↦ (
      none,
      rw dead,
      nowhere (λ j b l.
          let same : j ≡ i = some-eq_of_eq (sym (s.complete n j b l) ∙ e) in
          let twin : b ≡ a = some-eq_of_eq (sym l.stands ∙ ap (get_elem? slot.items) same ∙ here) in
          false≢true (sym l.live ∙ ap ignored twin ∙ dead)),
    )
    | inr live ↦ (some i, rw live, at i a (record { stands = here; live = live; named = named }))
  ]

  -- `get` does not panic, and finds the live item of a name if there is one.
  pub get-Finds :
      (slot : Slot A) (n : N)
      → IsSynced ignored name key slot
      → (found : Option ℕ) × (get ignored (key n) slot ≡ ret found)
        × Finds ignored name key slot n found
  unfolding get check_position
  get-Finds slot n s = elim (Option-cases (lookup (key n) slot.index)) [
    | inl missing ↦ (none, rw missing, nowhere (λ i a l. cc (s.complete n i a l)))
    | inr (i, e) ↦
        let (a, here, named) = s.sound n i e in
        rw e (rw here (check_item-Finds slot n i a s e here named))
  ]

  module _ (slot : Slot A) (n : N) (a : A) (synced : IsSynced ignored name key slot)
      (named : name a ≡ n) where
    pub add_sound :
        (m : N) (i : ℕ)
        → lookup (key m) (add ignored (key n) a slot).index ≡ some i
        → (b : A) × (get_elem? (add ignored (key n) a slot).items i ≡ some b) × (name b ≡ m)
    unfolding add
    add_sound m i e = elim (Bool-cases (key_eq (key n) (key m))) [
      | inl same ↦
          let here : n ≡ m = distinct n m ((key_eq_iff (key n) (key m)).0 same) in
          let last : length slot.items ≡ i = some-eq_of_eq (
            sym (lookup-put_self (key n) (length slot.items) slot.index)
            ∙ ap (λ k. lookup (key k) (put (key n) (length slot.items) slot.index)) here
            ∙ e) in
          (a, rw (← last) (get_elem?-append_end slot.items a), named ∙ here)
      | inr other ↦
          let ne : key n ≢ key m = λ h. false≢true (sym other ∙ (key_eq_iff _ _).1 h) in
          let old = sym (lookup-put_ne (key n) (key m) (length slot.items) slot.index ne) ∙ e in
          let (b, here, called) = synced.sound m i old in
          (b, get_elem?-append_left slot.items a i here, called)
    ]

    pub add_complete :
        ((i : ℕ) (b : A) → IsLive ignored name key slot n i b → ⊥)
        → (m : N) (i : ℕ) (b : A) → IsLive ignored name key (add ignored (key n) a slot) m i b
        → lookup (key m) (add ignored (key n) a slot).index ≡ some i
    unfolding add
    add_complete none_live m i b l = elim (get_elem?-append_inv slot.items a i l.stands) [
      | inl old ↦
          let was : IsLive ignored name key slot m i b = record {
            stands = old;
            live = l.live;
            named = l.named;
          } in
          lookup-put_ne (key n) (key m) (length slot.items) slot.index (λ h.
            none_live i b
              (subst (λ k. IsLive ignored name key slot k i b) (sym (distinct n m h)) was))
          ∙ synced.complete m i b was
      | inr (last, same) ↦
          let here : n ≡ m = sym named ∙ ap name same ∙ l.named in
          rw last (rw (← here) (lookup-put_self (key n) (length slot.items) slot.index))
    ]
