-- ===== src/Cache/Sequences.antt =====
-- Many calls of ddl/catalog_cache.go one after the other, against a plain map from names to objects.
use sqddl.Base.{
  List, [], ◌∷◌, Option, none, some, ◌≡◌, ◌≢◌, refl, sym, ap, ◌∙◌, fun_ext, if◌then◌else◌,
  Bool-cases, inl, inr, false≢true, Bytes, text_eq, text_eq_iff,
}
use sqddl.Catalog.{Catalog, Schema}
use sqddl.Cache.Slots.{Outcome, ret, ◌>>=◌}
use sqddl.Cache.State.{CatalogCache}
use sqddl.Cache.Kinds.{Kind, Synced, seen, store, StoreEnds, stored, store_lem}
use sqddl.Cache.Instances.{schema_kind}
use sqddl.Cache.Schemas.{add_or_update_schema}

module _ {O A : Type 0} (k : Kind O A) where
  abbrev pub store_all : CatalogCache → O → List A → Outcome (CatalogCache × O)
  store_all c o [] = ret (c, o)
  store_all c o (x ∷ xs) = do (c', o') ← store k c o (k.name x) x; store_all c' o' xs

  -- A map from names to objects after `x`, and after all of `xs`: an ignored object hides its name.
  abbrev pub latest : A → Bytes → Outcome (Option A) → Outcome (Option A)
  latest x n old = if text_eq (k.name x) n then ret (if k.ignored x then none else some x) else old

  abbrev pub latest_of : List A → Bytes → Outcome (Option A) → Outcome (Option A)
  latest_of [] n old = old
  latest_of (x ∷ xs) n old = latest_of xs n (latest x n old)

  -- The calls end without a panic, the cache agrees with the owner, and what the Get function
  -- shows is what the map has.
  pub data Refines (c : CatalogCache) (o : O) (xs : List A)
      : Outcome (CatalogCache × O) → Type 0 where
    refines :
        (c' : CatalogCache) (o' : O)
        → Synced k c' o'
        → ((n : Bytes) → seen k c' o' n ≡ latest_of xs n (seen k c o n))
        → Refines c o xs (ret (c', o'))

  stored-latest :
      (c c' : CatalogCache) (o o' : O) (x : A) (n : Bytes)
      → (n ≢ k.name x → seen k c' o' n ≡ seen k c o n)
      → seen k c' o' (k.name x) ≡ ret (if k.ignored x then none else some x)
      → seen k c' o' n ≡ latest x n (seen k c o n)
  stored-latest c c' o o' x n others self = elim (Bool-cases (text_eq (k.name x) n)) [
    | inl same ↦ rw same (ap (seen k c' o') (sym ((text_eq_iff (k.name x) n).0 same)) ∙ self)
    | inr other ↦
        rw other (others (λ e. false≢true (sym other ∙ (text_eq_iff (k.name x) n).1 (sym e))))
  ]

  prepend-Refines :
      (c c' : CatalogCache) (o o' : O) (x : A) (xs : List A) (r : Outcome (CatalogCache × O))
      → Refines c' o' xs r
      → ((n : Bytes) → seen k c' o' n ≡ latest x n (seen k c o n))
      → Refines c o (x ∷ xs) r
  prepend-Refines c c' o o' x xs _ (refines last owner s h) f =
      refines last owner s (λ n. h n ∙ ap (latest_of xs n) (f n))

  prepend_stored :
      (c : CatalogCache) (o : O) (x : A) (xs : List A) (r : Outcome (CatalogCache × O))
      → StoreEnds k c o (k.name x) x r
      → ((c' : CatalogCache) (o' : O) → Synced k c' o' → Refines c' o' xs (store_all c' o' xs))
      → Refines c o (x ∷ xs) (r >>= (λ (c', o'). store_all c' o' xs))
  prepend_stored c o x xs _ (stored c' o' i kept stands self) ih =
      prepend-Refines c c' o o' x xs _ (ih c' o' kept.synced)
        (λ n. stored-latest c c' o o' x n (λ ne. (kept.others n ne).1) self)

  pub store_all-Refines :
      (xs : List A) (c : CatalogCache) (o : O) → Synced k c o → Refines c o xs (store_all c o xs)
  store_all-Refines [] c o s = refines c o s (λ n. refl)
  store_all-Refines (x ∷ xs) c o s =
      prepend_stored c o x xs _ (store_lem k c o (k.name x) x s refl) (store_all-Refines xs)

-- AddOrUpdateSchema for each of a list of schemas, in order.
abbrev pub add_or_update_schemas :
    CatalogCache → Catalog → List Schema → Outcome (CatalogCache × Catalog)
add_or_update_schemas c catalog [] = ret (c, catalog)
add_or_update_schemas c catalog (x ∷ xs) = do
  (c', catalog') ← add_or_update_schema c catalog x
  add_or_update_schemas c' catalog' xs

schemas_as_store_all :
    (xs : List Schema) (c : CatalogCache) (catalog : Catalog)
    → add_or_update_schemas c catalog xs ≡ store_all schema_kind c catalog xs
unfolding add_or_update_schema
schemas_as_store_all [] c catalog = refl
schemas_as_store_all (x ∷ xs) c catalog =
    ap
      (λ (f : CatalogCache → Catalog → Outcome (CatalogCache × Catalog)).
        store schema_kind c catalog x.schema_name x >>= (λ (c', catalog'). f c' catalog'))
      (fun_ext (λ c'. fun_ext (λ catalog'. schemas_as_store_all xs c' catalog')))

-- Calls of AddOrUpdateSchema, any number of them with any schemas, refine a plain map from names to
-- schemas: on a cache that agrees with the catalog none panics, and in the end GetSchema of a name
-- points to the last schema of that name that was stored, or to what it pointed to before if there
-- was none. A stored schema that is ignored hides its name: then GetSchema returns nil.
pub add_or_update_schemas-Refines :
    (c : CatalogCache) (catalog : Catalog) (xs : List Schema)
    → Synced schema_kind c catalog
    → Refines schema_kind c catalog xs (add_or_update_schemas c catalog xs)
add_or_update_schemas-Refines c catalog xs s =
    rw (schemas_as_store_all xs c catalog) (store_all-Refines schema_kind xs c catalog s)
