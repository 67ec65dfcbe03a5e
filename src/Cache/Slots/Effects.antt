-- ===== src/Cache/Slots/Effects.antt =====
-- What get_or_create and add_or_update leave behind: the invariant, the item of the name, and the
-- items of every other name as they were.
use sqddl.Base.{
  ℕ, Bool, false, [], ◌∷◌, ◌++◌, Option, none, some, ◌≡◌, ◌≢◌, ◌⊎◌, ◌↔◌, inl, inr, refl, sym, ap,
  ◌∙◌, length, ◌==◌, ==_iff, get_elem?, set, Bool-cases, get_elem?-append_end,
  get_elem?-append_left, get_elem?-append_inv, some-eq_of_eq, false≢true, get_elem?-set_self,
  get_elem?-set_ne,
}
use sqddl.Cache.Maps.{Key, lookup, lookup-put_self}
use sqddl.Cache.Slots.{
  ret, Slot, get, add, update, create_missing, get_or_create, add_or_update_at, add_or_update,
}
use sqddl.Cache.Slots.Laws.{
  IsLive, IsSynced, Finds, at, nowhere, get-Finds, add_sound, add_complete,
}

module _ {A N : Type 0} (ignored : A → Bool) (name : A → N) (key : N → Key) where
  -- Apart from the name `n` the two slots have the same live items, at the same positions.
  abbrev pub SameElse : Slot A → Slot A → N → Type 0
  SameElse slot slot' n =
      (m : N)
      → m ≢ n
      → (i : ℕ) (b : A) → IsLive ignored name key slot m i b ↔ IsLive ignored name key slot' m i b

  -- Item `a` of name `n` is stored at position `i`.
  pub record Stored (slot slot' : Slot A) (n : N) (i : ℕ) (a : A) : Type 0 where
    pub synced : IsSynced ignored name key slot'
    pub cached : lookup (key n) slot'.index ≡ some i
    pub stands : get_elem? slot'.items i ≡ some a
    pub elsewhere : SameElse slot slot' n

  -- Position `i` has the live item of name `n`: the one that was there, or `fresh` if there was none.
  pub record Obtained (slot slot' : Slot A) (n : N) (fresh : A) (i : ℕ) : Type 0 where
    pub synced : IsSynced ignored name key slot'
    pub item : A
    pub is_live : IsLive ignored name key slot' n i item
    pub origin :
        (slot' ≡ slot)
        ⊎ ((item ≡ fresh)
            × ((j : ℕ) (b : A) → IsLive ignored name key slot n j b → ⊥)
            × (slot'.items ≡ slot.items ++ fresh ∷ [])
            × (i ≡ length slot.items))
    pub elsewhere : SameElse slot slot' n

module _ {A N : Type 0} (ignored : A → Bool) (name : A → N) (key : N → Key)
    (distinct : (n m : N) → key n ≡ key m → n ≡ m) (slot : Slot A) (n : N) (a : A)
    (synced : IsSynced ignored name key slot) (named : name a ≡ n) where
  abbrev Live : Slot A → N → ℕ → A → Type 0
  Live = IsLive ignored name key

  add-SameElse : SameElse ignored name key slot (add ignored (key n) a slot) n
  unfolding add
  add-SameElse m ne i b = (
    λ l. record {
      stands = get_elem?-append_left slot.items a i l.stands;
      live = l.live;
      named = l.named;
    },
    λ l. elim (get_elem?-append_inv slot.items a i l.stands) [
      | inl old ↦ record { stands = old; live = l.live; named = l.named }
      | inr (last, same) ↦ absurd (ne (sym l.named ∙ ap name (sym same) ∙ named))
    ],
  )

  add-Stored :
      ((i : ℕ) (b : A) → Live slot n i b → ⊥)
      → Stored ignored name key slot (add ignored (key n) a slot) n (length slot.items) a
  add-Stored none_live = record {
    synced = record {
      sound = add_sound ignored name key distinct slot n a synced named;
      complete = add_complete ignored name key distinct slot n a synced named none_live;
    };
    cached = unfold add in lookup-put_self (key n) (length slot.items) slot.index;
    stands = unfold add in get_elem?-append_end slot.items a;
    elsewhere = add-SameElse;
  }

  module _ (k : ℕ) (old : A) (there : Live slot n k old) where
    update_sound :
        (m : N) (i : ℕ)
        → lookup (key m) (update ignored k a slot).index ≡ some i
        → (b : A) × (get_elem? (update ignored k a slot).items i ≡ some b) × (name b ≡ m)
    unfolding update
    update_sound m i e =
        let (b, here, called) = synced.sound m i e in
        elim (Bool-cases (k == i)) [
          | inl same ↦
              let k≡i : k ≡ i = (==_iff k i).0 same in
              let twin : old ≡ b =
                some-eq_of_eq (sym there.stands ∙ ap (get_elem? slot.items) k≡i ∙ here) in
              (
                a,
                rw (← k≡i) (get_elem?-set_self slot.items k a there.stands),
                named ∙ sym there.named ∙ ap name twin ∙ called,
              )
          | inr other ↦ (
            b,
            get_elem?-set_ne slot.items k i a (λ h. false≢true (sym other ∙ (==_iff k i).1 h))
                ∙ here,
            called,
          )
        ]

    update_complete :
        (m : N) (i : ℕ) (b : A)
        → Live (update ignored k a slot) m i b
        → lookup (key m) (update ignored k a slot).index ≡ some i
    unfolding update
    update_complete m i b l = elim (Bool-cases (k == i)) [
      | inl same ↦
          let k≡i : k ≡ i = (==_iff k i).0 same in
          let twin : a ≡ b = some-eq_of_eq (
            sym (get_elem?-set_self slot.items k a there.stands)
            ∙ ap (get_elem? (set slot.items k a)) k≡i
            ∙ l.stands) in
          let here : n ≡ m = sym named ∙ ap name twin ∙ l.named in
          rw (← k≡i, ← here) (synced.complete n k old there)
      | inr other ↦ synced.complete m i b (record {
        stands =
            sym (get_elem?-set_ne slot.items k i a (λ h. false≢true (sym other ∙ (==_iff k i).1 h)))
            ∙ l.stands;
        live = l.live;
        named = l.named;
      })
    ]

    update-SameElse : SameElse ignored name key slot (update ignored k a slot) n
    unfolding update
    update-SameElse m ne i b = (
      λ l. record {
        stands =
            get_elem?-set_ne slot.items k i a (λ h. ne (
              sym l.named
              ∙ ap name
                  (some-eq_of_eq (sym l.stands ∙ ap (get_elem? slot.items) (sym h) ∙ there.stands))
              ∙ there.named))
            ∙ l.stands;
        live = l.live;
        named = l.named;
      },
      λ l. record {
        stands =
            sym (
              get_elem?-set_ne slot.items k i a (λ h. ne (
                sym l.named
                ∙ ap name (
                    some-eq_of_eq (
                      sym l.stands
                      ∙ ap (get_elem? (set slot.items k a)) (sym h)
                      ∙ get_elem?-set_self slot.items k a there.stands))
                ∙ named)))
            ∙ l.stands;
        live = l.live;
        named = l.named;
      },
    )

    pub update-Stored : Stored ignored name key slot (update ignored k a slot) n k a
    update-Stored = record {
      synced = record { sound = update_sound; complete = update_complete };
      cached = unfold update in synced.complete n k old there;
      stands = unfold update in get_elem?-set_self slot.items k a there.stands;
      elsewhere = update-SameElse;
    }

  at-Stored :
      (found : Option ℕ)
      → Finds ignored name key slot n found
      → (slot' : Slot A) × (i : ℕ) × (add_or_update_at ignored (key n) a slot found ≡ ret slot')
        × Stored ignored name key slot slot' n i a
  unfolding add_or_update_at
  at-Stored _ (at k old there) = (update ignored k a slot, k, refl, update-Stored k old there)
  at-Stored _ (nowhere none_live) =
      (add ignored (key n) a slot, length slot.items, refl, add-Stored none_live)

  pub add_or_update-Stored :
      (slot' : Slot A) × (i : ℕ) × (add_or_update ignored (key n) a slot ≡ ret slot')
      × Stored ignored name key slot slot' n i a
  unfolding add_or_update
  add_or_update-Stored =
      let (found, e, finds) = get-Finds ignored name key distinct slot n synced in
      rw e (at-Stored found finds)

  missing-Obtained :
      ignored a ≡ false
      → (found : Option ℕ) → Finds ignored name key slot n found
      → (slot' : Slot A) × (i : ℕ) × (create_missing ignored (key n) a slot found ≡ ret (slot', i))
        × Obtained ignored name key slot slot' n a i
  unfolding create_missing
  missing-Obtained live _ (at k old there) = (
    slot,
    k,
    refl,
    record {
      synced = synced;
      item = old;
      is_live = there;
      origin = inl refl;
      elsewhere = λ m ne i b. (λ l. l, λ l. l);
    },
  )
  missing-Obtained live _ (nowhere none_live) =
      let stored = add-Stored none_live in
      (
        add ignored (key n) a slot,
        length slot.items,
        refl,
        record {
          synced = stored.synced;
          item = a;
          is_live = record { stands = stored.stands; live = live; named = named };
          origin = inr (refl, none_live, unfold add in refl, refl);
          elsewhere = stored.elsewhere;
        },
      )

  pub get_or_create-Obtained :
      ignored a ≡ false
      → (slot' : Slot A) × (i : ℕ) × (get_or_create ignored (key n) a slot ≡ ret (slot', i))
        × Obtained ignored name key slot slot' n a i
  unfolding get_or_create
  get_or_create-Obtained live =
      let (found, e, finds) = get-Finds ignored name key distinct slot n synced in
      rw e (missing-Obtained live found finds)

module _ {A N : Type 0} (ignored : A → Bool) (name : A → N) (key : N → Key)
    (distinct : (n m : N) → key n ≡ key m → n ≡ m) where
  Finds-unique :
      (slot : Slot A) (n : N) (p q : Option ℕ)
      → IsSynced ignored name key slot
      → Finds ignored name key slot n p
      → Finds ignored name key slot n q
      → p ≡ q
  Finds-unique slot n _ _ s (at i a l) (at j b h) = sym (s.complete n i a l) ∙ s.complete n j b h
  Finds-unique slot n _ _ s (at i a l) (nowhere h) = absurd (h i a l)
  Finds-unique slot n _ _ s (nowhere h) (at i a l) = absurd (h i a l)
  Finds-unique slot n _ _ s (nowhere h) (nowhere k) = refl

  Finds-SameElse :
      (slot slot' : Slot A) (n m : N) (p : Option ℕ)
      → SameElse ignored name key slot slot' n
      → m ≢ n
      → Finds ignored name key slot m p
      → Finds ignored name key slot' m p
  Finds-SameElse slot slot' n m _ same ne (at i a l) = at i a ((same m ne i a).0 l)
  Finds-SameElse slot slot' n m _ same ne (nowhere h) =
      nowhere (λ i a l. h i a ((same m ne i a).1 l))

  -- A call of `get` for another name gives what it gave.
  pub get-SameElse :
      (slot slot' : Slot A) (n m : N)
      → IsSynced ignored name key slot
      → IsSynced ignored name key slot'
      → SameElse ignored name key slot slot' n
      → m ≢ n
      → get ignored (key m) slot' ≡ get ignored (key m) slot
  get-SameElse slot slot' n m s s' same ne =
      let (p, e, finds) = get-Finds ignored name key distinct slot m s in
      let (q, e', finds') = get-Finds ignored name key distinct slot' m s' in
      e'
      ∙ ap ret (Finds-unique slot' m q p s' finds' (Finds-SameElse slot slot' n m p same ne finds))
      ∙ sym e

  -- A call of `get` gives a live item that stands under its name.
  pub get_of_IsLive :
      (slot : Slot A) (n : N) (i : ℕ) (a : A)
      → IsSynced ignored name key slot
      → IsLive ignored name key slot n i a
      → get ignored (key n) slot ≡ ret (some i)
  get_of_IsLive slot n i a s l =
      let (p, e, finds) = get-Finds ignored name key distinct slot n s in
      e ∙ ap ret (Finds-unique slot n p (some i) s finds (at i a l))

  pub get_of_nowhere :
      (slot : Slot A) (n : N)
      → IsSynced ignored name key slot
      → ((i : ℕ) (a : A) → IsLive ignored name key slot n i a → ⊥)
      → get ignored (key n) slot ≡ ret none
  get_of_nowhere slot n s none_live =
      let (p, e, finds) = get-Finds ignored name key distinct slot n s in
      e ∙ ap ret (Finds-unique slot n p none s finds (nowhere none_live))
