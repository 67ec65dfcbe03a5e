-- ===== src/Cache/Schemas.antt =====
-- ddl/catalog_cache.go: the operations on schemas and on the enums, domains, views and tables of a
-- schema. A call returns the cache and the owner that it wrote to, and the position of its pointer.
use sqddl.Base.{ℕ, Bool, [], ◌∷◌, Option, none, some, Bytes}
use sqddl.Catalog.{
  Catalog, Schema, Enum, Domain, View, Table, zero_schema, zero_enum, zero_domain, zero_view,
  zero_table,
}
use sqddl.Cache.Maps.{Key}
use sqddl.Cache.Slots.{Outcome, ret, Slot, get, get_or_create, add_or_update, ◌>>=◌}
use sqddl.Cache.State.{CatalogCache}

abbrev pub schema_ignored : Schema → Bool
schema_ignored x = x.ignore

abbrev pub schema_name : Schema → Bytes
schema_name x = x.schema_name

abbrev pub schema_key : Catalog → Bytes → Key
schema_key catalog name = name ∷ []

abbrev pub schema_slot : CatalogCache → Catalog → Slot Schema
schema_slot c catalog = record { index = c.schemas; items = catalog.schemas }

abbrev pub with_schema_slot : CatalogCache → Catalog → Slot Schema → CatalogCache × Catalog
with_schema_slot c catalog slot =
    (record c { schemas = slot.index }, record catalog { schemas = slot.items })

unfoldable pub get_schema : CatalogCache → Option Catalog → Bytes → Outcome (Option ℕ)
get_schema c none name = ret none
get_schema c (some catalog) name =
    get schema_ignored (schema_key catalog name) (schema_slot c catalog)

-- the struct that is appended when there is none of the name
abbrev pub fresh_schema : Catalog → Bytes → Schema
fresh_schema catalog name = record zero_schema { schema_name = name }

unfoldable pub get_or_create_schema :
    CatalogCache → Catalog → Bytes → Outcome (CatalogCache × Catalog × ℕ)
get_or_create_schema c catalog name = do
  (slot, i) ←
      get_or_create schema_ignored (schema_key catalog name) (fresh_schema catalog name)
        (schema_slot c catalog)
  ret ((with_schema_slot c catalog slot).0, (with_schema_slot c catalog slot).1, i)

unfoldable pub add_or_update_schema :
    CatalogCache → Catalog → Schema → Outcome (CatalogCache × Catalog)
add_or_update_schema c catalog x = do
  slot ← add_or_update schema_ignored (schema_key catalog x.schema_name) x (schema_slot c catalog)
  ret (with_schema_slot c catalog slot)

abbrev pub enum_ignored : Enum → Bool
enum_ignored x = x.ignore

abbrev pub enum_name : Enum → Bytes
enum_name x = x.enum_name

abbrev pub enum_key : Schema → Bytes → Key
enum_key s name = s.schema_name ∷ name ∷ []

abbrev pub enum_slot : CatalogCache → Schema → Slot Enum
enum_slot c s = record { index = c.enums; items = s.enums }

abbrev pub with_enum_slot : CatalogCache → Schema → Slot Enum → CatalogCache × Schema
with_enum_slot c s slot = (record c { enums = slot.index }, record s { enums = slot.items })

unfoldable pub get_enum : CatalogCache → Option Schema → Bytes → Outcome (Option ℕ)
get_enum c none name = ret none
get_enum c (some s) name = get enum_ignored (enum_key s name) (enum_slot c s)

-- the struct that is appended when there is none of the name
abbrev pub fresh_enum : Schema → Bytes → Enum
fresh_enum s name = record zero_enum { enum_schema = s.schema_name; enum_name = name }

unfoldable pub get_or_create_enum :
    CatalogCache → Schema → Bytes → Outcome (CatalogCache × Schema × ℕ)
get_or_create_enum c s name = do
  (slot, i) ← get_or_create enum_ignored (enum_key s name) (fresh_enum s name) (enum_slot c s)
  ret ((with_enum_slot c s slot).0, (with_enum_slot c s slot).1, i)

-- the item with its owner's name written in
abbrev pub own_enum : Schema → Enum → Enum
own_enum s x = record x { enum_schema = s.schema_name }

unfoldable pub add_or_update_enum : CatalogCache → Schema → Enum → Outcome (CatalogCache × Schema)
add_or_update_enum c s x = do
  slot ← add_or_update enum_ignored (enum_key s x.enum_name) (own_enum s x) (enum_slot c s)
  ret (with_enum_slot c s slot)

abbrev pub domain_ignored : Domain → Bool
domain_ignored x = x.ignore

abbrev pub domain_name : Domain → Bytes
domain_name x = x.domain_name

abbrev pub domain_key : Schema → Bytes → Key
domain_key s name = s.schema_name ∷ name ∷ []

abbrev pub domain_slot : CatalogCache → Schema → Slot Domain
domain_slot c s = record { index = c.domains; items = s.domains }

abbrev pub with_domain_slot : CatalogCache → Schema → Slot Domain → CatalogCache × Schema
with_domain_slot c s slot = (record c { domains = slot.index }, record s { domains = slot.items })

unfoldable pub get_domain : CatalogCache → Option Schema → Bytes → Outcome (Option ℕ)
get_domain c none name = ret none
get_domain c (some s) name = get domain_ignored (domain_key s name) (domain_slot c s)

-- the struct that is appended when there is none of the name
abbrev pub fresh_domain : Schema → Bytes → Domain
fresh_domain s name = record zero_domain { domain_schema = s.schema_name; domain_name = name }

unfoldable pub get_or_create_domain :
    CatalogCache → Schema → Bytes → Outcome (CatalogCache × Schema × ℕ)
get_or_create_domain c s name = do
  (slot, i) ←
      get_or_create domain_ignored (domain_key s name) (fresh_domain s name) (domain_slot c s)
  ret ((with_domain_slot c s slot).0, (with_domain_slot c s slot).1, i)

-- the item with its owner's name written in
abbrev pub own_domain : Schema → Domain → Domain
own_domain s x = record x { domain_schema = s.schema_name }

unfoldable pub add_or_update_domain :
    CatalogCache → Schema → Domain → Outcome (CatalogCache × Schema)
add_or_update_domain c s x = do
  slot ←
      add_or_update domain_ignored (domain_key s x.domain_name) (own_domain s x) (domain_slot c s)
  ret (with_domain_slot c s slot)

abbrev pub view_ignored : View → Bool
view_ignored x = x.ignore

abbrev pub view_name : View → Bytes
view_name x = x.view_name

abbrev pub view_key : Schema → Bytes → Key
view_key s name = s.schema_name ∷ name ∷ []

abbrev pub view_slot : CatalogCache → Schema → Slot View
view_slot c s = record { index = c.views; items = s.views }

abbrev pub with_view_slot : CatalogCache → Schema → Slot View → CatalogCache × Schema
with_view_slot c s slot = (record c { views = slot.index }, record s { views = slot.items })

unfoldable pub get_view : CatalogCache → Option Schema → Bytes → Outcome (Option ℕ)
get_view c none name = ret none
get_view c (some s) name = get view_ignored (view_key s name) (view_slot c s)

-- the struct that is appended when there is none of the name
abbrev pub fresh_view : Schema → Bytes → View
fresh_view s name = record zero_view { view_schema = s.schema_name; view_name = name }

unfoldable pub get_or_create_view :
    CatalogCache → Schema → Bytes → Outcome (CatalogCache × Schema × ℕ)
get_or_create_view c s name = do
  (slot, i) ← get_or_create view_ignored (view_key s name) (fresh_view s name) (view_slot c s)
  ret ((with_view_slot c s slot).0, (with_view_slot c s slot).1, i)

-- the item with its owner's name written in
abbrev pub own_view : Schema → View → View
own_view s x = record x { view_schema = s.schema_name }

unfoldable pub add_or_update_view : CatalogCache → Schema → View → Outcome (CatalogCache × Schema)
add_or_update_view c s x = do
  slot ← add_or_update view_ignored (view_key s x.view_name) (own_view s x) (view_slot c s)
  ret (with_view_slot c s slot)

abbrev pub table_ignored : Table → Bool
table_ignored x = x.ignore

abbrev pub table_name : Table → Bytes
table_name x = x.table_name

abbrev pub table_key : Schema → Bytes → Key
table_key s name = s.schema_name ∷ name ∷ []

abbrev pub table_slot : CatalogCache → Schema → Slot Table
table_slot c s = record { index = c.tables; items = s.tables }

abbrev pub with_table_slot : CatalogCache → Schema → Slot Table → CatalogCache × Schema
with_table_slot c s slot = (record c { tables = slot.index }, record s { tables = slot.items })

unfoldable pub get_table : CatalogCache → Option Schema → Bytes → Outcome (Option ℕ)
get_table c none name = ret none
get_table c (some s) name = get table_ignored (table_key s name) (table_slot c s)

-- the struct that is appended when there is none of the name
abbrev pub fresh_table : Schema → Bytes → Table
fresh_table s name = record zero_table { table_schema = s.schema_name; table_name = name }

unfoldable pub get_or_create_table :
    CatalogCache → Schema → Bytes → Outcome (CatalogCache × Schema × ℕ)
get_or_create_table c s name = do
  (slot, i) ← get_or_create table_ignored (table_key s name) (fresh_table s name) (table_slot c s)
  ret ((with_table_slot c s slot).0, (with_table_slot c s slot).1, i)

-- the item with its owner's name written in
abbrev pub own_table : Schema → Table → Table
own_table s x = record x { table_schema = s.schema_name }

unfoldable pub add_or_update_table : CatalogCache → Schema → Table → Outcome (CatalogCache × Schema)
add_or_update_table c s x = do
  slot ← add_or_update table_ignored (table_key s x.table_name) (own_table s x) (table_slot c s)
  ret (with_table_slot c s slot)
