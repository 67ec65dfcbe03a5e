-- ===== src/Cache/Views.antt =====
-- ddl/catalog_cache.go: the operations on the indexes and triggers of a view.
use sqddl.Base.{ℕ, Bool, List, [], ◌∷◌, Option, none, some, Bytes}
use sqddl.Catalog.{View, Index, Trigger, zero_index, zero_trigger}
use sqddl.Cache.Maps.{Key}
use sqddl.Cache.Slots.{Outcome, ret, Slot, get, get_or_create, add_or_update, ◌>>=◌}
use sqddl.Cache.State.{CatalogCache}

abbrev pub view_index_ignored : Index → Bool
view_index_ignored x = x.ignore

abbrev pub view_index_name : Index → Bytes
view_index_name x = x.index_name

abbrev pub view_index_key : View → Bytes → Key
view_index_key v name = v.view_schema ∷ v.view_name ∷ name ∷ []

abbrev pub view_index_slot : CatalogCache → View → Slot Index
view_index_slot c v = record { index = c.indexes; items = v.indexes }

abbrev pub with_view_index_slot : CatalogCache → View → Slot Index → CatalogCache × View
with_view_index_slot c v slot =
    (record c { indexes = slot.index }, record v { indexes = slot.items })

unfoldable pub get_view_index : CatalogCache → Option View → Bytes → Outcome (Option ℕ)
get_view_index c none name = ret none
get_view_index c (some v) name =
    get view_index_ignored (view_index_key v name) (view_index_slot c v)

-- the struct that is appended when there is none of the name
abbrev pub fresh_view_index : View → Bytes → List Bytes → Index
fresh_view_index v name columns = record zero_index {
  table_schema = v.view_schema;
  table_name = v.view_name;
  index_name = name;
  columns = columns;
}

unfoldable pub get_or_create_view_index :
    CatalogCache → View → Bytes → List Bytes → Outcome (CatalogCache × View × ℕ)
get_or_create_view_index c v name columns = do
  (slot, i) ←
      get_or_create view_index_ignored (view_index_key v name) (fresh_view_index v name columns)
        (view_index_slot c v)
  ret ((with_view_index_slot c v slot).0, (with_view_index_slot c v slot).1, i)

-- the item with its owner's name written in
abbrev pub own_view_index : View → Index → Index
own_view_index v x = record x { table_schema = v.view_schema; table_name = v.view_name }

unfoldable pub add_or_update_view_index :
    CatalogCache → View → Index → Outcome (CatalogCache × View)
add_or_update_view_index c v x = do
  slot ←
      add_or_update view_index_ignored (view_index_key v x.index_name) (own_view_index v x)
        (view_index_slot c v)
  ret (with_view_index_slot c v slot)

abbrev pub view_trigger_ignored : Trigger → Bool
view_trigger_ignored x = x.ignore

abbrev pub view_trigger_name : Trigger → Bytes
view_trigger_name x = x.trigger_name

abbrev pub view_trigger_key : View → Bytes → Key
view_trigger_key v name = v.view_schema ∷ v.view_name ∷ name ∷ []

abbrev pub view_trigger_slot : CatalogCache → View → Slot Trigger
view_trigger_slot c v = record { index = c.triggers; items = v.triggers }

abbrev pub with_view_trigger_slot : CatalogCache → View → Slot Trigger → CatalogCache × View
with_view_trigger_slot c v slot =
    (record c { triggers = slot.index }, record v { triggers = slot.items })

unfoldable pub get_view_trigger : CatalogCache → Option View → Bytes → Outcome (Option ℕ)
get_view_trigger c none name = ret none
get_view_trigger c (some v) name =
    get view_trigger_ignored (view_trigger_key v name) (view_trigger_slot c v)

-- the struct that is appended when there is none of the name
abbrev pub fresh_view_trigger : View → Bytes → Trigger
fresh_view_trigger v name = record zero_trigger {
  table_schema = v.view_schema;
  table_name = v.view_name;
  trigger_name = name;
}

unfoldable pub get_or_create_view_trigger :
    CatalogCache → View → Bytes → Outcome (CatalogCache × View × ℕ)
get_or_create_view_trigger c v name = do
  (slot, i) ←
      get_or_create view_trigger_ignored (view_trigger_key v name) (fresh_view_trigger v name)
        (view_trigger_slot c v)
  ret ((with_view_trigger_slot c v slot).0, (with_view_trigger_slot c v slot).1, i)

-- the item with its owner's name written in
abbrev pub own_view_trigger : View → Trigger → Trigger
own_view_trigger v x = record x { table_schema = v.view_schema; table_name = v.view_name }

unfoldable pub add_or_update_view_trigger :
    CatalogCache → View → Trigger → Outcome (CatalogCache × View)
add_or_update_view_trigger c v x = do
  slot ←
      add_or_update view_trigger_ignored (view_trigger_key v x.trigger_name) (own_view_trigger v x)
        (view_trigger_slot c v)
  ret (with_view_trigger_slot c v slot)
