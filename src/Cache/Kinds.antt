-- ===== src/Cache/Kinds.antt =====
-- ddl/catalog_cache.go: the operations of one kind of object, with the struct that owns the slice:
-- the interface through which the laws of slots reach tables, columns and the rest.
use sqddl.Base.{
  ℕ, Bool, false, Option, none, some, ◌≡◌, ◌≢◌, refl, sym, ap, ◌∙◌, subst, subst₂, if◌then◌else◌,
  inl, inr, get_elem?, Bytes, length, [], ◌∷◌, ◌++◌,
}
use sqddl.Cache.Maps.{Key}
use sqddl.Cache.Slots.{Outcome, ret, Slot, get, get_or_create, add_or_update, ◌>>=◌}
use sqddl.Cache.Slots.Laws.{IsSynced, IsLive}
use sqddl.Cache.Slots.Effects.{
  add_or_update-Stored, get_or_create-Obtained, get-SameElse, get_of_IsLive, get_of_nowhere,
  SameElse,
}
use sqddl.Cache.Slots.Visible.{at_position, visible, visible-SameElse, visible_of_Stored}
use sqddl.Cache.State.{CatalogCache}

-- A kind of object `A` that `O` owns: where its slot is, and how a new slot is written back.
pub record Kind (O A : Type 0) : Type 0 where
  pub ignored : A → Bool
  pub name : A → Bytes
  pub key : O → Bytes → Key
  pub slot : CatalogCache → O → Slot A
  pub with_slot : CatalogCache → O → Slot A → CatalogCache × O
  pub getter : CatalogCache → O → Bytes → Outcome (Option ℕ)
  pub getter_is :
      (c : CatalogCache) (o : O) (n : Bytes) → getter c o n ≡ get ignored (key o n) (slot c o)
  pub distinct : (o : O) (n m : Bytes) → key o n ≡ key o m → n ≡ m
  pub slot-with_slot :
      (c : CatalogCache) (o : O) (sl : Slot A) → slot (with_slot c o sl).0 (with_slot c o sl).1 ≡ sl
  pub key-with_slot : (c : CatalogCache) (o : O) (sl : Slot A) → key (with_slot c o sl).1 ≡ key o
  pub with_slot-slot : (c : CatalogCache) (o : O) → with_slot c o (slot c o) ≡ (c, o)

module _ {O A : Type 0} (k : Kind O A) where
  -- The cache's map and the owner's slice agree.
  abbrev pub Synced : CatalogCache → O → Type 0
  Synced c o = IsSynced k.ignored k.name (k.key o) (k.slot c o)

  -- What the kind's Get function returns.
  abbrev pub find : CatalogCache → O → Bytes → Outcome (Option ℕ)
  find = k.getter

  abbrev pub obtain : CatalogCache → O → Bytes → A → Outcome (CatalogCache × O × ℕ)
  obtain c o n fresh = do
    (sl, i) ← get_or_create k.ignored (k.key o n) fresh (k.slot c o)
    ret ((k.with_slot c o sl).0, (k.with_slot c o sl).1, i)

  abbrev pub store : CatalogCache → O → Bytes → A → Outcome (CatalogCache × O)
  store c o n x = do
    sl ← add_or_update k.ignored (k.key o n) x (k.slot c o)
    ret (k.with_slot c o sl)

  abbrev pub item_at : CatalogCache → O → ℕ → Option A
  item_at c o i = get_elem? (k.slot c o).items i

  -- The object that the kind's Get function returns a pointer to.
  abbrev pub seen : CatalogCache → O → Bytes → Outcome (Option A)
  seen c o n = do found ← find c o n; ret (at_position (k.slot c o).items found)

  -- For every other name the Get function returns the same pointer, to the same object.
  pub record Kept (c : CatalogCache) (o : O) (n : Bytes) (c' : CatalogCache) (o' : O) : Type 0 where
    pub synced : Synced c' o'
    pub others : (m : Bytes) → m ≢ n → (find c' o' m ≡ find c o m) × (seen c' o' m ≡ seen c o m)

  pub data StoreEnds (c : CatalogCache) (o : O) (n : Bytes) (x : A)
      : Outcome (CatalogCache × O) → Type 0 where
    stored :
        (c' : CatalogCache) (o' : O) (i : ℕ)
        → Kept c o n c' o'
        → item_at c' o' i ≡ some x
        → seen c' o' n ≡ ret (if k.ignored x then none else some x)
        → StoreEnds c o n x (ret (c', o'))

  -- What holds of a slot and the owner's keys holds of the slot written back.
  slot_written :
      (c : CatalogCache) (o : O) (sl : Slot A) (P : (Bytes → Key) → Slot A → Type 0)
      → P (k.key o) sl
      → P (k.key (k.with_slot c o sl).1) (k.slot (k.with_slot c o sl).0 (k.with_slot c o sl).1)
  slot_written c o sl P = subst₂ P (sym (k.key-with_slot c o sl)) (sym (k.slot-with_slot c o sl))

  pub find_written :
      (c : CatalogCache) (o : O) (sl : Slot A) (n : Bytes)
      → find (k.with_slot c o sl).0 (k.with_slot c o sl).1 n ≡ get k.ignored (k.key o n) sl
  find_written c o sl n =
      k.getter_is _ _ n
      ∙ slot_written c o sl (λ key sl'. get k.ignored (key n) sl' ≡ get k.ignored (k.key o n) sl)
          refl

  seen_is :
      (c : CatalogCache) (o : O) (n : Bytes)
      → seen c o n ≡ visible k.ignored (k.key o n) (k.slot c o)
  seen_is c o n =
      ap (λ (r : Outcome (Option ℕ)). do found ← r; ret (at_position (k.slot c o).items found))
        (k.getter_is c o n)

  seen_written :
      (c : CatalogCache) (o : O) (sl : Slot A) (n : Bytes)
      → seen (k.with_slot c o sl).0 (k.with_slot c o sl).1 n ≡ visible k.ignored (k.key o n) sl
  seen_written c o sl n =
      seen_is _ _ n
      ∙ slot_written c o sl
          (λ key sl'. visible k.ignored (key n) sl' ≡ visible k.ignored (k.key o n) sl) refl

  written-Kept :
      (c : CatalogCache) (o : O) (n : Bytes) (sl : Slot A)
      → Synced c o
      → IsSynced k.ignored k.name (k.key o) sl
      → SameElse k.ignored k.name (k.key o) (k.slot c o) sl n
      → Kept c o n (k.with_slot c o sl).0 (k.with_slot c o sl).1
  written-Kept c o n sl s s' same = record {
    synced = slot_written c o sl (λ key sl. IsSynced k.ignored k.name key sl) s';
    others = λ m ne. (
      find_written c o sl m
          ∙ get-SameElse k.ignored k.name (k.key o) (k.distinct o) (k.slot c o) sl n m s s' same ne
          ∙ sym (k.getter_is c o m),
      seen_written c o sl m
          ∙ visible-SameElse k.ignored k.name (k.key o) (k.distinct o) (k.slot c o) sl n m s s' same
              ne
          ∙ sym (seen_is c o m),
    );
  }

  pub store_lem :
      (c : CatalogCache) (o : O) (n : Bytes) (x : A)
      → Synced c o
      → k.name x ≡ n
      → StoreEnds c o n x (store c o n x)
  store_lem c o n x s named =
      let (sl, i, e, st) =
        add_or_update-Stored k.ignored k.name (k.key o) (k.distinct o) (k.slot c o) n x s named in
      rw e (
        stored _ _ i (written-Kept c o n sl s st.synced st.elsewhere)
          (slot_written c o sl (λ key sl. get_elem? sl.items i ≡ some x) st.stands)
          (seen_written c o sl n
            ∙ visible_of_Stored k.ignored k.name (k.key o) (k.distinct o) (k.slot c o) sl n i x st
                named))

  -- How `obtain` ends: with the live item that was there, and the cache and the owner as they were; or
  -- with the fresh one behind the others, where there was none.
  pub data ObtainEnds (c : CatalogCache) (o : O) (n : Bytes) (fresh : A)
      : Outcome (CatalogCache × O × ℕ) → Type 0 where
    found :
        (i : ℕ) (a : A)
        → find c o n ≡ ret (some i)
        → item_at c o i ≡ some a
        → k.name a ≡ n
        → ObtainEnds c o n fresh (ret (c, o, i))
    created :
        (c' : CatalogCache) (o' : O) (i : ℕ)
        → find c o n ≡ ret none
        → i ≡ length (k.slot c o).items
        → (k.slot c' o').items ≡ (k.slot c o).items ++ fresh ∷ []
        → find c' o' n ≡ ret (some i)
        → Kept c o n c' o'
        → ObtainEnds c o n fresh (ret (c', o', i))

  obtained_same :
      (c : CatalogCache) (o : O) (n : Bytes) (fresh : A) (sl : Slot A) (i : ℕ) (a : A)
      → sl ≡ k.slot c o
      → Synced c o
      → IsLive k.ignored k.name (k.key o) sl n i a
      → ObtainEnds c o n fresh (ret ((k.with_slot c o sl).0, (k.with_slot c o sl).1, i))
  obtained_same c o n fresh sl i a same s live =
      let here = subst (λ sl. IsLive k.ignored k.name (k.key o) sl n i a) same live in
      subst (λ sl. ObtainEnds c o n fresh (ret ((k.with_slot c o sl).0, (k.with_slot c o sl).1, i)))
        (sym same)
        (subst (λ (p : CatalogCache × O). ObtainEnds c o n fresh (ret (p.0, p.1, i)))
          (sym (k.with_slot-slot c o))
          (found i a
            (k.getter_is c o n
              ∙ get_of_IsLive k.ignored k.name (k.key o) (k.distinct o) (k.slot c o) n i a s here)
            here.stands here.named))

  pub obtain_lem :
      (c : CatalogCache) (o : O) (n : Bytes) (fresh : A)
      → Synced c o
      → k.name fresh ≡ n
      → k.ignored fresh ≡ false
      → ObtainEnds c o n fresh (obtain c o n fresh)
  obtain_lem c o n fresh s named live =
      let (sl, i, e, ob) =
        get_or_create-Obtained k.ignored k.name (k.key o) (k.distinct o) (k.slot c o) n fresh s
          named live in
      rw e (elim ob.origin [
        | inl same ↦ obtained_same c o n fresh sl i ob.item same s ob.is_live
        | inr (new, none_live, items, last) ↦
            created _ _ i
              (k.getter_is c o n
                ∙ get_of_nowhere k.ignored k.name (k.key o) (k.distinct o) (k.slot c o) n s
                    none_live)
              last
              (slot_written c o sl (λ key sl. sl.items ≡ (k.slot c o).items ++ fresh ∷ []) items)
              (find_written c o sl n
                ∙ get_of_IsLive k.ignored k.name (k.key o) (k.distinct o) sl n i ob.item ob.synced
                    ob.is_live)
              (written-Kept c o n sl s ob.synced ob.elsewhere)
      ])
