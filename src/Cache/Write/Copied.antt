-- ===== src/Cache/Write/Copied.antt =====
-- WriteCatalog of ddl/catalog_cache.go: copying the items of one owner.
use sqddl.Base.{
  ℕ, false, List, [], ◌∷◌, ◌++◌, none, some, ◌≡◌, ◌≢◌, refl, sym, ap, ◌∙◌, All, Bytes, get_elem?,
  get_elem?-append_end, length, set, append_assoc, append-nil, subst,
}
use sqddl.Cache.Instances.{column_kind}
use sqddl.Cache.Kinds.{
  Kind, Synced, find, find_written, obtain, ObtainEnds, found, created, obtain_lem,
}
use sqddl.Cache.Slots.{Outcome, ret, ◌>>=◌, Slot, update}
use sqddl.Cache.Slots.Effects.{update-Stored, get-SameElse}
use sqddl.Cache.Slots.Laws.{IsLive, IsSynced}
use sqddl.Cache.State.{CatalogCache}
use sqddl.Cache.Tables.{get_or_create_column, fresh_column, get_column}
use sqddl.Cache.Write.{copy_each, copy_column}
use sqddl.Catalog.{Table, Column}

set-append : {A : Type 0} (xs : List A) (a x : A) → set (xs ++ a ∷ []) (length xs) x ≡ xs ++ x ∷ []
set-append [] a x = refl
set-append (y ∷ xs) a x = ap (λ l. y ∷ l) (set-append xs a x)

module _ {O A : Type 0} (k : Kind O A) where
  -- No name is that of an item behind.
  abbrev pub HasDistinctNames : List A → Type 0
  HasDistinctNames [] = Unit
  HasDistinctNames (x ∷ xs) = All (λ y. k.name y ≢ k.name x) xs × HasDistinctNames xs

module _ {O A : Type 0} (k : Kind O A) (fresh : O → A → A)
    (fresh_named : (o : O) (x : A) → k.name (fresh o x) ≡ k.name x)
    (fresh_live : (o : O) (x : A) → k.ignored (fresh o x) ≡ false) where
  -- one that is got or made is overwritten
  abbrev pub copied : A → CatalogCache × O → Outcome (CatalogCache × O)
  copied x w = do
    (c, o, i) ← obtain k w.0 w.1 (k.name x) (fresh w.1 x)
    ret (k.with_slot c o (update k.ignored i x (k.slot c o)))

  -- `x` is behind the other items, and what is found under other names is as before.
  pub record IsCopied (c : CatalogCache) (o : O) (xs : List A) (w : CatalogCache × O) : Type 0 where
    pub synced : Synced k w.0 w.1
    pub items : (k.slot w.0 w.1).items ≡ (k.slot c o).items ++ xs
    pub others : (m : Bytes) → All (λ x. m ≢ k.name x) xs → find k w.0 w.1 m ≡ find k c o m

  after_obtain :
      (c : CatalogCache) (o : O) (x : A) (r : Outcome (CatalogCache × O × ℕ))
      → find k c o (k.name x) ≡ ret none
      → ObtainEnds k c o (k.name x) (fresh o x) r
      → (w : CatalogCache × O) × ((do
        (c', o', i) ← r
        ret (k.with_slot c' o' (update k.ignored i x (k.slot c' o'))))
          ≡ ret w)
        × IsCopied c o (x ∷ []) w
  after_obtain c o x _ new (found i a there here named) = absurd (cc (sym new ∙ there))
  after_obtain c o x _ new (created c' o' i nowhere last items now kept) =
      let sl = k.slot c' o' in
      let stands : get_elem? sl.items i ≡ some (fresh o x) =
        ap (get_elem? sl.items) last
        ∙ ap (λ l. get_elem? l (length (k.slot c o).items)) items
        ∙ get_elem?-append_end (k.slot c o).items (fresh o x) in
      let live : IsLive k.ignored k.name (k.key o') sl (k.name x) i (fresh o x) = record {
        stands = stands;
        live = fresh_live o x;
        named = fresh_named o x;
      } in
      let st =
        update-Stored k.ignored k.name (k.key o') (k.distinct o') sl (k.name x) x kept.synced refl i
          (fresh o x) live in
      let back = k.slot-with_slot c' o' (update k.ignored i x sl) in
      let keys = k.key-with_slot c' o' (update k.ignored i x sl) in
      (
        k.with_slot c' o' (update k.ignored i x sl),
        refl,
        record {
          synced =
              subst
                (λ key. IsSynced k.ignored k.name key (
                  k.slot (k.with_slot c' o' (update k.ignored i x sl)).0
                    (k.with_slot c' o' (update k.ignored i x sl)).1))
                (sym keys) (subst (IsSynced k.ignored k.name (k.key o')) (sym back) st.synced);
          items =
              ap (λ (s : Slot A). s.items) back
              ∙ unfold update in
                (ap (λ l. set l i x) items
                  ∙ ap (λ i. set ((k.slot c o).items ++ fresh o x ∷ []) i x) last
                  ∙ set-append (k.slot c o).items (fresh o x) x);
          others = λ m (ne, rest).
              find_written k c' o' (update k.ignored i x sl) m
              ∙ get-SameElse k.ignored k.name (k.key o') (k.distinct o') sl
                  (update k.ignored i x sl) (k.name x) m kept.synced st.synced st.elsewhere ne
              ∙ sym (k.getter_is c' o' m)
              ∙ (kept.others m ne).0;
        },
      )

  copied-IsCopied :
      (c : CatalogCache) (o : O) (x : A)
      → Synced k c o
      → find k c o (k.name x) ≡ ret none
      → (w : CatalogCache × O) × (copied x (c, o) ≡ ret w) × IsCopied c o (x ∷ []) w
  copied-IsCopied c o x s new =
      after_obtain c o x (obtain k c o (k.name x) (fresh o x)) new
        (obtain_lem k c o (k.name x) (fresh o x) s (fresh_named o x) (fresh_live o x))

  still_new :
      (c : CatalogCache) (o : O) (x : A) (w : CatalogCache × O) (xs : List A)
      → IsCopied c o (x ∷ []) w
      → All (λ y. k.name y ≢ k.name x) xs
      → All (λ y. find k c o (k.name y) ≡ ret none) xs
      → All (λ y. find k w.0 w.1 (k.name y) ≡ ret none) xs
  still_new c o x w [] h d new = tt
  still_new c o x w (y ∷ xs) h (ne, d) (n, new) =
      (h.others (k.name y) (ne, tt) ∙ n, still_new c o x w xs h d new)

  pub copy_each-IsCopied :
      (xs : List A) (c : CatalogCache) (o : O)
      → Synced k c o
      → HasDistinctNames k xs
      → All (λ x. find k c o (k.name x) ≡ ret none) xs
      → (w : CatalogCache × O) × (copy_each copied xs (c, o) ≡ ret w) × IsCopied c o xs w
  unfolding copy_each
  copy_each-IsCopied [] c o s d new = (
    (c, o),
    refl,
    record { synced = s; items = sym (append-nil (k.slot c o).items); others = λ m h. refl },
  )
  copy_each-IsCopied (x ∷ xs) c o s (apart, d) (n, new) =
      let (w, e, h) = copied-IsCopied c o x s n in
      let (v, f, i) = copy_each-IsCopied xs w.0 w.1 h.synced d (still_new c o x w xs h apart new) in
      (
        v,
        rw e f,
        record {
          synced = i.synced;
          items = i.items ∙ ap (λ l. l ++ xs) h.items ∙ append_assoc (k.slot c o).items (x ∷ []) xs;
          others = λ m (ne, rest). i.others m rest ∙ h.others m (ne, tt);
        },
      )

-- WriteCatalog copies the columns of a table: where the cache agrees with the destination's table,
-- GetColumn finds none of the columns there, and their names differ, the loop over the columns does
-- not panic and puts all of them as they are behind the table's own, in their order. GetColumn of
-- any other name returns what it did before, and the cache still agrees with the table.
pub copy_each-copy_column :
    (xs : List Column) (c : CatalogCache) (t : Table)
    → Synced column_kind c t
    → HasDistinctNames column_kind xs
    → All (λ x. get_column c (some t) x.column_name ≡ ret none) xs
    → (c' : CatalogCache) × (t' : Table) × (copy_each copy_column xs (c, t) ≡ ret (c', t'))
      × (t'.columns ≡ t.columns ++ xs)
      × Synced column_kind c' t'
      × ((m : Bytes)
          → All (λ x. m ≢ x.column_name) xs
          → get_column c' (some t') m ≡ get_column c (some t) m)
unfolding copy_column get_or_create_column update
copy_each-copy_column xs c t s d new =
    let (w, e, h) =
      copy_each-IsCopied column_kind (λ t x. fresh_column t x.column_name x.column_type)
        (λ t x. refl) (λ t x. refl) xs c t s d new in
    (w.0, w.1, e, h.items, h.synced, h.others)
