-- ===== src/Cache/Routines.antt =====
-- ddl/catalog_cache.go: the operations on the routines of a schema. The key has the identity
-- arguments; GetRoutine alone leaves them out for the dialects other than Postgres.
use sqddl.Base.{ℕ, Bool, [], ◌∷◌, Option, none, some, if◌then◌else◌, Bytes, text_eq}
use sqddl.Catalog.{Schema, Routine, zero_routine, dialect_postgres}
use sqddl.Cache.Maps.{Key}
use sqddl.Cache.Slots.{Outcome, ret, Slot, get, get_or_create, add_or_update, ◌>>=◌}
use sqddl.Cache.State.{CatalogCache}

abbrev pub routine_ignored : Routine → Bool
routine_ignored x = x.ignore

abbrev pub routine_key : Schema → Bytes → Bytes → Key
routine_key s name arguments = s.schema_name ∷ name ∷ arguments ∷ []

abbrev pub routine_slot : CatalogCache → Schema → Slot Routine
routine_slot c s = record { index = c.routines; items = s.routines }

abbrev pub with_routine_slot : CatalogCache → Schema → Slot Routine → CatalogCache × Schema
with_routine_slot c s slot =
    (record c { routines = slot.index }, record s { routines = slot.items })

-- the identity arguments that GetRoutine and NewCatalogCache look up
abbrev pub effective_arguments : Bytes → Bytes → Bytes
effective_arguments dialect arguments = if text_eq dialect dialect_postgres then arguments else []

unfoldable pub get_routine : CatalogCache → Option Schema → Bytes → Bytes → Outcome (Option ℕ)
get_routine c none name arguments = ret none
get_routine c (some s) name arguments =
    get routine_ignored (routine_key s name (effective_arguments c.dialect arguments))
      (routine_slot c s)

abbrev pub fresh_routine : Schema → Bytes → Bytes → Routine
fresh_routine s name arguments = record zero_routine {
  routine_schema = s.schema_name;
  routine_name = name;
  identity_arguments = arguments;
}

unfoldable pub get_or_create_routine :
    CatalogCache → Schema → Bytes → Bytes → Outcome (CatalogCache × Schema × ℕ)
get_or_create_routine c s name arguments = do
  (slot, i) ←
      get_or_create routine_ignored (routine_key s name arguments) (fresh_routine s name arguments)
        (routine_slot c s)
  ret ((with_routine_slot c s slot).0, (with_routine_slot c s slot).1, i)

abbrev pub own_routine : Schema → Routine → Routine
own_routine s x = record x { routine_schema = s.schema_name }

unfoldable pub add_or_update_routine :
    CatalogCache → Schema → Routine → Outcome (CatalogCache × Schema)
add_or_update_routine c s x = do
  slot ←
      add_or_update routine_ignored (routine_key s x.routine_name x.identity_arguments)
        (own_routine s x) (routine_slot c s)
  ret (with_routine_slot c s slot)
