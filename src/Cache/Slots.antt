-- ===== src/Cache/Slots.antt =====
-- ddl/catalog_cache.go: what the operations on every kind of object share. A slot is a map of the
-- cache and the slice that it points into; a pointer `&items[i]` is the position `i`.
pub mod Laws
pub mod Effects
pub mod Visible
pub mod Named
use sqddl.Base.{
  ℕ, Bool, true, false, List, [], ◌∷◌, ◌++◌, Option, none, some, if◌then◌else◌, length, get_elem?,
  set,
}
use sqddl.Cache.Maps.{Key, GoMap, lookup, put}

-- The end of a call: a result, or the panic of an index out of range.
pub data Outcome {ℓ} (A : Type ℓ) : Type ℓ where
  ret : A → Outcome A
  panic : Outcome A

infixl 5 ◌>>=◌
abbrev pub ◌>>=◌ {ℓ κ} : {A : Type ℓ} {B : Type κ} → Outcome A → (A → Outcome B) → Outcome B
ret a >>= f = f a
panic >>= f = panic

pub record Slot (A : Type 0) : Type 0 where
  pub index : GoMap ℕ
  pub items : List A

module _ {A : Type 0} (ignored : A → Bool) where
  -- `ok && !items[i].Ignore`: the position of an item that is there and not ignored
  unfoldable pub check_item : ℕ → Option A → Outcome (Option ℕ)
  check_item i none = panic
  check_item i (some a) = ret (if ignored a then none else some i)

  unfoldable pub check_position : List A → Option ℕ → Outcome (Option ℕ)
  check_position items none = ret none
  check_position items (some i) = check_item i (get_elem? items i)

  -- i, ok := index[key]; if ok && !items[i].Ignore
  unfoldable pub get : Key → Slot A → Outcome (Option ℕ)
  get key slot = check_position slot.items (lookup key slot.index)

  -- items = append(items, a); index[key] = len(items) - 1
  unfoldable pub add : Key → A → Slot A → Slot A
  add key a slot = record {
    index = put key (length slot.items) slot.index;
    items = slot.items ++ a ∷ [];
  }

  -- items[i] = a
  unfoldable pub update : ℕ → A → Slot A → Slot A
  update i a slot = record slot { items = set slot.items i a }

  unfoldable pub create_missing : Key → A → Slot A → Option ℕ → Outcome (Slot A × ℕ)
  create_missing key a slot (some i) = ret (slot, i)
  create_missing key a slot none = ret (add key a slot, length slot.items)

  -- The slot and the position of the item that was found or made.
  unfoldable pub get_or_create : Key → A → Slot A → Outcome (Slot A × ℕ)
  get_or_create key a slot = do found ← get key slot; create_missing key a slot found

  unfoldable pub add_or_update_at : Key → A → Slot A → Option ℕ → Outcome (Slot A)
  add_or_update_at key a slot (some i) = ret (update i a slot)
  add_or_update_at key a slot none = ret (add key a slot)

  unfoldable pub add_or_update : Key → A → Slot A → Outcome (Slot A)
  add_or_update key a slot = do found ← get key slot; add_or_update_at key a slot found
