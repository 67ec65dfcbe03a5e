-- ===== src/Cache/Slots/Visible.antt =====
-- The item that a name stands for in a slot, and how add_or_update and get_or_create change it.
use sqddl.Base.{
  ℕ, Bool, Option, none, some, ◌≡◌, ◌≢◌, inl, inr, refl, sym, ap, ◌∙◌, if◌then◌else◌, get_elem?,
  List, Bool-cases, some-eq_of_eq, false≢true,
}
use sqddl.Cache.Maps.{Key}
use sqddl.Cache.Slots.{Outcome, ret, ◌>>=◌, Slot, get}
use sqddl.Cache.Slots.Laws.{IsLive, IsSynced, Finds, at, nowhere, get-Finds}
use sqddl.Cache.Slots.Effects.{SameElse, Stored, get_of_IsLive, get_of_nowhere}

module _ {A : Type 0} where
  abbrev pub at_position : List A → Option ℕ → Option A
  at_position items none = none
  at_position items (some i) = get_elem? items i

  -- the item that a pointer returned for `key` points to
  abbrev pub visible : (A → Bool) → Key → Slot A → Outcome (Option A)
  visible ignored key slot = do found ← get ignored key slot; ret (at_position slot.items found)

module _ {A N : Type 0} (ignored : A → Bool) (name : A → N) (key : N → Key)
    (distinct : (n m : N) → key n ≡ key m → n ≡ m) where
  pub visible_of_IsLive :
      (slot : Slot A) (n : N) (i : ℕ) (a : A)
      → IsSynced ignored name key slot
      → IsLive ignored name key slot n i a
      → visible ignored (key n) slot ≡ ret (some a)
  visible_of_IsLive slot n i a s l =
      rw (get_of_IsLive ignored name key distinct slot n i a s l) (ap ret l.stands)

  pub visible_of_nowhere :
      (slot : Slot A) (n : N)
      → IsSynced ignored name key slot
      → ((i : ℕ) (a : A) → IsLive ignored name key slot n i a → ⊥)
      → visible ignored (key n) slot ≡ ret none
  visible_of_nowhere slot n s h = rw (get_of_nowhere ignored name key distinct slot n s h) refl

  visible_of_Finds :
      (slot slot' : Slot A) (n m : N) (p : Option ℕ)
      → IsSynced ignored name key slot
      → IsSynced ignored name key slot'
      → SameElse ignored name key slot slot' n
      → m ≢ n
      → Finds ignored name key slot m p
      → visible ignored (key m) slot' ≡ visible ignored (key m) slot
  visible_of_Finds slot slot' n m _ s s' same ne (at i a l) =
      visible_of_IsLive slot' m i a s' ((same m ne i a).0 l)
      ∙ sym (visible_of_IsLive slot m i a s l)
  visible_of_Finds slot slot' n m _ s s' same ne (nowhere h) =
      visible_of_nowhere slot' m s' (λ i a l. h i a ((same m ne i a).1 l))
      ∙ sym (visible_of_nowhere slot m s h)

  pub visible-SameElse :
      (slot slot' : Slot A) (n m : N)
      → IsSynced ignored name key slot
      → IsSynced ignored name key slot'
      → SameElse ignored name key slot slot' n
      → m ≢ n
      → visible ignored (key m) slot' ≡ visible ignored (key m) slot
  visible-SameElse slot slot' n m s s' same ne =
      let (p, e, finds) = get-Finds ignored name key distinct slot m s in
      visible_of_Finds slot slot' n m p s s' same ne finds

  abbrev pub unless_ignored : A → Option A
  unless_ignored a = if ignored a then none else some a

  -- A stored item is what its name stands for, unless it is ignored: then that is nothing.
  pub visible_of_Stored :
      (slot slot' : Slot A) (n : N) (i : ℕ) (a : A)
      → Stored ignored name key slot slot' n i a
      → name a ≡ n
      → visible ignored (key n) slot' ≡ ret (unless_ignored a)
  visible_of_Stored slot slot' n i a st named = elim (Bool-cases (ignored a)) [
    | inl dead ↦ rw dead (
        visible_of_nowhere slot' n st.synced (λ j b l.
          let same : j ≡ i = some-eq_of_eq (sym (st.synced.complete n j b l) ∙ st.cached) in
          let twin : b ≡ a =
            some-eq_of_eq (sym l.stands ∙ ap (get_elem? slot'.items) same ∙ st.stands) in
          false≢true (sym l.live ∙ ap ignored twin ∙ dead)))
    | inr live ↦ rw live (
        visible_of_IsLive slot' n i a st.synced
          (record { stands = st.stands; live = live; named = named }))
  ]
