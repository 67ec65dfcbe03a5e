-- ===== src/Cache/Constraints.antt =====
-- ddl/catalog_cache.go: the operations on the constraints of a table, which also keep the maps of
-- primary and foreign keys.
use sqddl.Base.{
  ℕ, Bool, List, [], ◌∷◌, ◌++◌, Option, none, some, if◌then◌else◌, Bytes, text_eq, length,
  get_elem?,
}
use sqddl.Catalog.{Table, Constraint, zero_constraint, primary_key, foreign_key}
use sqddl.Cache.Maps.{Key, lookup, put}
use sqddl.Cache.Slots.{Outcome, ret, panic, Slot, get, add, update, ◌>>=◌}
use sqddl.Cache.State.{CatalogCache}

abbrev pub constraint_ignored : Constraint → Bool
constraint_ignored x = x.ignore

abbrev pub constraint_name : Constraint → Bytes
constraint_name x = x.constraint_name

abbrev pub constraint_key : Table → Bytes → Key
constraint_key t name = t.table_schema ∷ t.table_name ∷ name ∷ []

abbrev pub table_id : Table → Key
table_id t = t.table_schema ∷ t.table_name ∷ []

abbrev pub constraint_slot : CatalogCache → Table → Slot Constraint
constraint_slot c t = record { index = c.constraints; items = t.constraints }

abbrev pub with_constraint_slot : CatalogCache → Table → Slot Constraint → CatalogCache × Table
with_constraint_slot c t slot =
    (record c { constraints = slot.index }, record t { constraints = slot.items })

unfoldable pub get_constraint : CatalogCache → Option Table → Bytes → Outcome (Option ℕ)
get_constraint c none name = ret none
get_constraint c (some t) name =
    get constraint_ignored (constraint_key t name) (constraint_slot c t)

abbrev pub positions : Option (List ℕ) → List ℕ
positions none = []
positions (some nums) = nums

-- the switch on the constraint type: position `i` of table `id` is a primary or a foreign key
unfoldable pub register_kind : Key → Bytes → ℕ → CatalogCache → CatalogCache
register_kind id type i c =
    if text_eq type primary_key
    then record c { pkeys = put id i c.pkeys }
    else if text_eq type foreign_key
    then record c { fkeys = put id (positions (lookup id c.fkeys) ++ i ∷ []) c.fkeys }
    else c

abbrev pub fresh_constraint : Table → Bytes → Bytes → List Bytes → Constraint
fresh_constraint t name type columns = record zero_constraint {
  table_schema = t.table_schema;
  table_name = t.table_name;
  constraint_name = name;
  constraint_type = type;
  columns = columns;
}

-- append, then register its kind and its name
unfoldable pub append_constraint : CatalogCache → Table → Bytes → Constraint → CatalogCache × Table
append_constraint c t name x =
    let kept = register_kind (table_id t) x.constraint_type (length t.constraints) c in
    with_constraint_slot kept t
      (add constraint_ignored (constraint_key t name) x (constraint_slot kept t))

-- append, then register its kind only
unfoldable pub append_nameless : CatalogCache → Table → Constraint → CatalogCache × Table
append_nameless c t x = (
  register_kind (table_id t) x.constraint_type (length t.constraints) c,
  record t { constraints = t.constraints ++ x ∷ [] },
)

unfoldable pub create_constraint :
    CatalogCache → Table → Bytes → Constraint → Option ℕ → CatalogCache × Table × ℕ
create_constraint c t name x (some i) = (c, t, i)
create_constraint c t name x none =
    let written = append_constraint c t name x in (written.0, written.1, length t.constraints)

unfoldable pub get_or_create_constraint :
    CatalogCache → Table → Bytes → Bytes → List Bytes → Outcome (CatalogCache × Table × ℕ)
get_or_create_constraint c t name type columns = do
  found ← get constraint_ignored (constraint_key t name) (constraint_slot c t)
  ret (create_constraint c t name (fresh_constraint t name type columns) found)

abbrev pub own_constraint : Table → Constraint → Constraint
own_constraint t x = record x { table_schema = t.table_schema; table_name = t.table_name }

unfoldable pub append_by_name : CatalogCache → Table → Bytes → Constraint → CatalogCache × Table
append_by_name c t [] x = append_nameless c t x
append_by_name c t (b ∷ name) x = append_constraint c t (b ∷ name) x

unfoldable pub write_constraint :
    CatalogCache → Table → Constraint → Option ℕ → CatalogCache × Table
write_constraint c t x (some i) =
    with_constraint_slot c t (update constraint_ignored i x (constraint_slot c t))
write_constraint c t x none = append_by_name c t x.constraint_name x

unfoldable pub add_or_update_constraint :
    CatalogCache → Table → Constraint → Outcome (CatalogCache × Table)
add_or_update_constraint c t x = do
  found ← get constraint_ignored (constraint_key t x.constraint_name) (constraint_slot c t)
  ret (write_constraint c t (own_constraint t x) found)

unfoldable pub get_primary_key : CatalogCache → Option Table → Outcome (Option ℕ)
get_primary_key c none = ret none
get_primary_key c (some t) =
    get constraint_ignored (table_id t) (record { index = c.pkeys; items = t.constraints })

-- `fkey.Ignore` of table.Constraints[num] in front of the keys behind it
unfoldable pub keep_live : ℕ → Option Constraint → List ℕ → Outcome (List ℕ)
keep_live num none rest = panic
keep_live num (some x) rest = ret (if x.ignore then rest else num ∷ rest)

unfoldable pub live_keys : List Constraint → List ℕ → Outcome (List ℕ)
live_keys items [] = ret []
live_keys items (num ∷ nums) = do
  rest ← live_keys items nums
  keep_live num (get_elem? items num) rest

unfoldable pub get_foreign_keys : CatalogCache → Option Table → Outcome (List ℕ)
get_foreign_keys c none = ret []
get_foreign_keys c (some t) = live_keys t.constraints (positions (lookup (table_id t) c.fkeys))
