-- ===== src/Cache/Faults.antt =====
-- Where the CatalogCache of ddl/catalog_cache.go does not do what it means to.
use sqddl.Base.{
  ℕ, false, List, [], ◌∷◌, ◌++◌, none, some, ◌≡◌, ◌≢◌, refl, ◌∙◌, length, get_elem?, Bytes, text_eq,
  get_elem?-append_end,
}
use sqddl.Catalog.{Schema, Table, Constraint, dialect_postgres}
use sqddl.Cache.Maps.{lookup, put, lookup-put_ne, lookup-put_self}
use sqddl.Cache.State.{CatalogCache}
use sqddl.Cache.Slots.{
  ret, panic, get, add, check_position, check_item, get_or_create, create_missing,
}
use sqddl.Cache.Schemas.{
  get_or_create_table, fresh_table, table_slot, with_table_slot, table_ignored, table_key,
  get_table,
}
use sqddl.Cache.Tables.{get_column}
use sqddl.Cache.Routines.{get_routine, get_or_create_routine, routine_key, fresh_routine}
use sqddl.Cache.Constraints.{
  get_constraint, get_or_create_constraint, create_constraint, constraint_ignored, constraint_key,
  constraint_slot, append_constraint, fresh_constraint, register_kind, table_id,
}

-- A table that was ignored is made again without its columns, but the cache still knows their
-- positions: GetOrCreateTable, where GetTable returned nil, is followed by a panic of GetColumn at
-- every column that the cache has for that name.
pub get_column-recreated :
    (c : CatalogCache) (s : Schema) (name column : Bytes) (k : ℕ)
    → get_table c (some s) name ≡ ret none
    → lookup (s.schema_name ∷ name ∷ column ∷ []) c.columns ≡ some k
    → (c' : CatalogCache) × (s' : Schema) × (i : ℕ) × (get_or_create_table c s name
        ≡ ret (c', s', i))
      × (get_elem? s'.tables i ≡ some (fresh_table s name))
      × (get_column c' (some (fresh_table s name)) column ≡ panic)
unfolding get_table get_or_create_table get_or_create create_missing
get_column-recreated c s name column k none_found cached =
    let slot = add table_ignored (table_key s name) (fresh_table s name) (table_slot c s) in
    (
      (with_table_slot c s slot).0,
      (with_table_slot c s slot).1,
      length s.tables,
      rw none_found refl,
      unfold add in get_elem?-append_end s.tables (fresh_table s name),
      unfold get_column get check_position check_item in rw cached refl,
    )

-- GetRoutine finds no routine that GetOrCreateRoutine makes outside Postgres with identity
-- arguments: it looks up the name without them.
pub get_routine-created :
    (c : CatalogCache) (s : Schema) (name arguments : Bytes)
    → text_eq c.dialect dialect_postgres ≡ false
    → arguments ≢ []
    → lookup (routine_key s name []) c.routines ≡ none
    → lookup (routine_key s name arguments) c.routines ≡ none
    → (c' : CatalogCache) × (s' : Schema) × (i : ℕ) × (get_or_create_routine c s name arguments
        ≡ ret (c', s', i))
      × (get_elem? s'.routines i ≡ some (fresh_routine s name arguments))
      × (get_routine c' (some s') name arguments ≡ ret none)
unfolding get_or_create_routine get_or_create get check_position create_missing add get_routine
get_routine-created c s name arguments other ne missing absent = (
  record c { routines = put (routine_key s name arguments) (length s.routines) c.routines },
  record s { routines = s.routines ++ fresh_routine s name arguments ∷ [] },
  length s.routines,
  rw absent refl,
  get_elem?-append_end s.routines (fresh_routine s name arguments),
  rw other (
      rw
        (lookup-put_ne (routine_key s name arguments) (routine_key s name []) (length s.routines)
            c.routines (λ e. ne cc)
          ∙ missing)
        refl),
)

found_after_append :
    (c : CatalogCache) (t : Table) (name : Bytes) (x : Constraint)
    → x.ignore ≡ false
    → get constraint_ignored
        (constraint_key t name)
        (constraint_slot (append_constraint c t name x).0 (append_constraint c t name x).1)
      ≡ ret (some (length t.constraints))
unfolding append_constraint add get check_position
found_after_append c t name x live =
    let kept = register_kind (table_id t) x.constraint_type (length t.constraints) c in
    rw (lookup-put_self (constraint_key t name) (length t.constraints) kept.constraints)
      (rw (get_elem?-append_end t.constraints x) (unfold check_item in rw live refl))

again :
    (c : CatalogCache) (t : Table) (i : ℕ) (type : Bytes) (columns : List Bytes)
    → get constraint_ignored (constraint_key t []) (constraint_slot c t) ≡ ret (some i)
    → get_or_create_constraint c t [] type columns ≡ ret (c, t, i)
unfolding get_or_create_constraint create_constraint
again c t i type columns e = rw e refl

-- GetOrCreateConstraint takes the empty name for a name: after it has made a constraint with it,
-- every further call with the empty name returns that one and makes none, whatever type and columns
-- are asked for.
pub get_or_create_constraint-nameless :
    (c : CatalogCache) (t : Table) (type : Bytes) (columns : List Bytes)
    → get_constraint c (some t) [] ≡ ret none
    → (c' : CatalogCache) × (t' : Table) × (i : ℕ) × (get_or_create_constraint c t [] type columns
        ≡ ret (c', t', i))
      × (get_elem? t'.constraints i ≡ some (fresh_constraint t [] type columns))
      × ((type' : Bytes) (columns' : List Bytes)
          → get_or_create_constraint c' t' [] type' columns' ≡ ret (c', t', i))
unfolding get_constraint get_or_create_constraint create_constraint append_constraint
get_or_create_constraint-nameless c t type columns none_found =
    let x = fresh_constraint t [] type columns in
    (
      (append_constraint c t [] x).0,
      (append_constraint c t [] x).1,
      length t.constraints,
      rw none_found refl,
      unfold append_constraint add in get_elem?-append_end t.constraints x,
      λ type' columns'.
          again (append_constraint c t [] x).0 (append_constraint c t [] x).1 (length t.constraints)
            type' columns' (found_after_append c t [] x refl),
    )
