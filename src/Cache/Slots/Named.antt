-- ===== src/Cache/Slots/Named.antt =====
-- What a Get function finds, read off the slice alone: the first live item of the name.
use sqddl.Base.{
  ℕ, zero, suc, Bool, false, not, ◌&&◌, List, [], ◌∷◌, Option, none, some, ◌≡◌, refl, sym, ap, ◌∙◌,
  if◌then◌else◌, arith, get_elem?, Bytes, text_eq, text_eq_iff, Bool-cases, some-eq_of_eq, inl, inr,
}
use sqddl.Cache.Maps.{Key}
use sqddl.Cache.Slots.{ret, Slot}
use sqddl.Cache.Slots.Laws.{IsSynced}
use sqddl.Cache.Slots.Visible.{visible, visible_of_IsLive, visible_of_nowhere}

module _ {A : Type 0} (ignored : A → Bool) (name : A → Bytes) where
  unfoldable pub live_named : Bytes → List A → Option A
  live_named n [] = none
  live_named n (x ∷ xs) = if not (ignored x) && text_eq (name x) n then some x else live_named n xs

  -- Item `a` of the list is live and has the name.
  abbrev pub HasLive : Bytes → List A → A → Type 0
  HasLive n items a = (i : ℕ) × (get_elem? items i ≡ some a) × (ignored a ≡ false) × (name a ≡ n)

  later : (n : Bytes) (x : A) (xs : List A) (a : A) → HasLive n xs a → HasLive n (x ∷ xs) a
  later n x xs a (i, here, live, named) = (suc i, here, live, named)

  pub live_named_found :
      (n : Bytes) (items : List A) (a : A) → live_named n items ≡ some a → HasLive n items a
  unfolding live_named
  live_named_found n [] a e = cc
  live_named_found n (x ∷ xs) a e = elim (Bool-cases (not (ignored x) && text_eq (name x) n)) [
    | inl here ↦
        let same : x ≡ a = some-eq_of_eq (rw here at e) in
        (
          zero,
          ap some same,
          rw (← same) (ground arith),
          rw (← same) (ground (arith, text_eq_iff (name x) n)),
        )
    | inr other ↦ later n x xs a (live_named_found n xs a (rw other at e))
  ]

  live_named-none :
      (n : Bytes) (items : List A) (i : ℕ) (a : A)
      → live_named n items ≡ none
      → get_elem? items i ≡ some a
      → ignored a ≡ false
      → name a ≡ n
      → ⊥
  unfolding live_named
  live_named-none n [] i a e here live named = cc here
  live_named-none n (x ∷ xs) zero a e here live named =
      let same : x ≡ a = some-eq_of_eq here in ground (arith, text_eq_iff (name x) n)
  live_named-none n (x ∷ xs) (suc i) a e here live named =
      elim (Bool-cases (not (ignored x) && text_eq (name x) n)) [
        | inl first ↦ absurd (cc (rw first at e))
        | inr other ↦ live_named-none n xs i a (rw other at e) here live named
      ]

  module _ (key : Bytes → Key) (distinct : (n m : Bytes) → key n ≡ key m → n ≡ m) where
    visible_by :
        (slot : Slot A) (n : Bytes) (o : Option A)
        → IsSynced ignored name key slot
        → live_named n slot.items ≡ o
        → visible ignored (key n) slot ≡ ret o
    visible_by slot n none s e =
        visible_of_nowhere ignored name key distinct slot n s
          (λ i a l. live_named-none n slot.items i a e l.stands l.live l.named)
    visible_by slot n (some a) s e =
        let (i, here, live, named) = live_named_found n slot.items a e in
        visible_of_IsLive ignored name key distinct slot n i a s
          (record { stands = here; live = live; named = named })

    -- In step with its slice, the map finds the first live item of the name.
    pub visible-live_named :
        (slot : Slot A) (n : Bytes)
        → IsSynced ignored name key slot
        → visible ignored (key n) slot ≡ ret (live_named n slot.items)
    visible-live_named slot n s = visible_by slot n (live_named n slot.items) s refl

    -- A live item is the one that its name finds.
    pub live_named_self :
        (slot : Slot A) (i : ℕ) (a : A)
        → IsSynced ignored name key slot
        → get_elem? slot.items i ≡ some a
        → ignored a ≡ false
        → live_named (name a) slot.items ≡ some a
    live_named_self slot i a s here live =
        let now =
          visible_of_IsLive ignored name key distinct slot (name a) i a s
            (record { stands = here; live = live; named = refl }) in
        ret-eq_of_eq (sym (visible-live_named slot (name a) s) ∙ now)
      where
        ret-eq_of_eq : {x y : Option A} → ret x ≡ ret y → x ≡ y
        ret-eq_of_eq e = cc
