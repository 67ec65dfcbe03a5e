-- ===== src/Cache/Tables.antt =====
-- ddl/catalog_cache.go: the operations on the columns, indexes and triggers of a table.
use sqddl.Base.{ℕ, Bool, List, [], ◌∷◌, Option, none, some, Bytes}
use sqddl.Catalog.{Table, Column, Index, Trigger, zero_column, zero_index, zero_trigger}
use sqddl.Cache.Maps.{Key}
use sqddl.Cache.Slots.{Outcome, ret, Slot, get, get_or_create, add_or_update, ◌>>=◌}
use sqddl.Cache.State.{CatalogCache}

abbrev pub column_ignored : Column → Bool
column_ignored x = x.ignore

abbrev pub column_name : Column → Bytes
column_name x = x.column_name

abbrev pub column_key : Table → Bytes → Key
column_key t name = t.table_schema ∷ t.table_name ∷ name ∷ []

abbrev pub column_slot : CatalogCache → Table → Slot Column
column_slot c t = record { index = c.columns; items = t.columns }

abbrev pub with_column_slot : CatalogCache → Table → Slot Column → CatalogCache × Table
with_column_slot c t slot = (record c { columns = slot.index }, record t { columns = slot.items })

unfoldable pub get_column : CatalogCache → Option Table → Bytes → Outcome (Option ℕ)
get_column c none name = ret none
get_column c (some t) name = get column_ignored (column_key t name) (column_slot c t)

-- the struct that is appended when there is none of the name
abbrev pub fresh_column : Table → Bytes → Bytes → Column
fresh_column t name column_type = record zero_column {
  table_schema = t.table_schema;
  table_name = t.table_name;
  column_name = name;
  column_type = column_type;
}

unfoldable pub get_or_create_column :
    CatalogCache → Table → Bytes → Bytes → Outcome (CatalogCache × Table × ℕ)
get_or_create_column c t name column_type = do
  (slot, i) ←
      get_or_create column_ignored (column_key t name) (fresh_column t name column_type)
        (column_slot c t)
  ret ((with_column_slot c t slot).0, (with_column_slot c t slot).1, i)

-- the item with its owner's name written in
abbrev pub own_column : Table → Column → Column
own_column t x = record x { table_schema = t.table_schema; table_name = t.table_name }

unfoldable pub add_or_update_column : CatalogCache → Table → Column → Outcome (CatalogCache × Table)
add_or_update_column c t x = do
  slot ←
      add_or_update column_ignored (column_key t x.column_name) (own_column t x) (column_slot c t)
  ret (with_column_slot c t slot)

abbrev pub index_ignored : Index → Bool
index_ignored x = x.ignore

abbrev pub index_name : Index → Bytes
index_name x = x.index_name

abbrev pub index_key : Table → Bytes → Key
index_key t name = t.table_schema ∷ t.table_name ∷ name ∷ []

abbrev pub index_slot : CatalogCache → Table → Slot Index
index_slot c t = record { index = c.indexes; items = t.indexes }

abbrev pub with_index_slot : CatalogCache → Table → Slot Index → CatalogCache × Table
with_index_slot c t slot = (record c { indexes = slot.index }, record t { indexes = slot.items })

unfoldable pub get_index : CatalogCache → Option Table → Bytes → Outcome (Option ℕ)
get_index c none name = ret none
get_index c (some t) name = get index_ignored (index_key t name) (index_slot c t)

-- the struct that is appended when there is none of the name
abbrev pub fresh_index : Table → Bytes → List Bytes → Index
fresh_index t name columns = record zero_index {
  table_schema = t.table_schema;
  table_name = t.table_name;
  index_name = name;
  columns = columns;
}

unfoldable pub get_or_create_index :
    CatalogCache → Table → Bytes → List Bytes → Outcome (CatalogCache × Table × ℕ)
get_or_create_index c t name columns = do
  (slot, i) ←
      get_or_create index_ignored (index_key t name) (fresh_index t name columns) (index_slot c t)
  ret ((with_index_slot c t slot).0, (with_index_slot c t slot).1, i)

-- the item with its owner's name written in
abbrev pub own_index : Table → Index → Index
own_index t x = record x { table_schema = t.table_schema; table_name = t.table_name }

unfoldable pub add_or_update_index : CatalogCache → Table → Index → Outcome (CatalogCache × Table)
add_or_update_index c t x = do
  slot ← add_or_update index_ignored (index_key t x.index_name) (own_index t x) (index_slot c t)
  ret (with_index_slot c t slot)

abbrev pub trigger_ignored : Trigger → Bool
trigger_ignored x = x.ignore

abbrev pub trigger_name : Trigger → Bytes
trigger_name x = x.trigger_name

abbrev pub trigger_key : Table → Bytes → Key
trigger_key t name = t.table_schema ∷ t.table_name ∷ name ∷ []

abbrev pub trigger_slot : CatalogCache → Table → Slot Trigger
trigger_slot c t = record { index = c.triggers; items = t.triggers }

abbrev pub with_trigger_slot : CatalogCache → Table → Slot Trigger → CatalogCache × Table
with_trigger_slot c t slot =
    (record c { triggers = slot.index }, record t { triggers = slot.items })

unfoldable pub get_trigger : CatalogCache → Option Table → Bytes → Outcome (Option ℕ)
get_trigger c none name = ret none
get_trigger c (some t) name = get trigger_ignored (trigger_key t name) (trigger_slot c t)

-- the struct that is appended when there is none of the name
abbrev pub fresh_trigger : Table → Bytes → Trigger
fresh_trigger t name = record zero_trigger {
  table_schema = t.table_schema;
  table_name = t.table_name;
  trigger_name = name;
}

unfoldable pub get_or_create_trigger :
    CatalogCache → Table → Bytes → Outcome (CatalogCache × Table × ℕ)
get_or_create_trigger c t name = do
  (slot, i) ←
      get_or_create trigger_ignored (trigger_key t name) (fresh_trigger t name) (trigger_slot c t)
  ret ((with_trigger_slot c t slot).0, (with_trigger_slot c t slot).1, i)

-- the item with its owner's name written in
abbrev pub own_trigger : Table → Trigger → Trigger
own_trigger t x = record x { table_schema = t.table_schema; table_name = t.table_name }

unfoldable pub add_or_update_trigger :
    CatalogCache → Table → Trigger → Outcome (CatalogCache × Table)
add_or_update_trigger c t x = do
  slot ←
      add_or_update trigger_ignored (trigger_key t x.trigger_name) (own_trigger t x)
        (trigger_slot c t)
  ret (with_trigger_slot c t slot)
