-- ===== src/Diff/Lookups.antt =====
-- ddl/*_migration.go: the loops over the objects of one catalog that look each of them up in the
-- cache of the other. A pointer that a Get function returns is the object that it points to.
use sqddl.Base.{
  Bool, true, false, List, [], ◌∷◌, Option, none, some, if◌then◌else◌, Bytes, has_prefix, codes,
  ◌||◌,
}
use sqddl.Cache.Constraints.{get_constraint}
use sqddl.Cache.Schemas.{get_schema, get_table}
use sqddl.Cache.Slots.{Outcome, ret, ◌>>=◌}
use sqddl.Cache.Slots.Visible.{at_position}
use sqddl.Cache.State.{CatalogCache}
use sqddl.Cache.Tables.{get_column, get_index}
use sqddl.Catalog.{Catalog, Schema, Table, Column, Constraint, Index}

unfoldable pub find_schema : CatalogCache → Catalog → Bytes → Outcome (Option Schema)
find_schema cache catalog name = do
  found ← get_schema cache (some catalog) name
  ret (at_position catalog.schemas found)

unfoldable pub find_table : CatalogCache → Schema → Bytes → Outcome (Option Table)
find_table cache s name = do found ← get_table cache (some s) name; ret (at_position s.tables found)

unfoldable pub find_column : CatalogCache → Table → Bytes → Outcome (Option Column)
find_column cache t name = do
  found ← get_column cache (some t) name
  ret (at_position t.columns found)

unfoldable pub find_constraint : CatalogCache → Table → Bytes → Outcome (Option Constraint)
find_constraint cache t name = do
  found ← get_constraint cache (some t) name
  ret (at_position t.constraints found)

unfoldable pub find_index : CatalogCache → Table → Bytes → Outcome (Option Index)
find_index cache t name = do
  found ← get_index cache (some t) name
  ret (at_position t.indexes found)

module _ {A B : Type 0} where
  abbrev pub keep_missing : A → Option B → List A → List A
  keep_missing x none rest = x ∷ rest
  keep_missing x (some y) rest = rest

  -- for x in xs { if skip(x) { continue }; if find(x) == nil { missing = append(missing, x) } }
  unfoldable pub missing : (A → Bool) → (A → Outcome (Option B)) → List A → Outcome (List A)
  missing skip find [] = ret []
  missing skip find (x ∷ xs) =
      let rest = missing skip find xs in
      let here = find x in
      if skip x then rest else do found ← here; others ← rest; ret (keep_missing x found others)

module _ {A : Type 0} where
  abbrev pub put_altered : A → A → List A × List (A × A) → Bool → List A × List (A × A)
  put_altered old x rest different = if different then (rest.0, (old, x) ∷ rest.1) else rest

  abbrev pub sort_compared :
      (A → A → Outcome Bool)
      → A
      → List A × List (A × A)
      → Option A
      → Outcome (List A × List (A × A))
  sort_compared different x rest none = ret (x ∷ rest.0, rest.1)
  sort_compared different x rest (some old) = do b ← different old x; ret (put_altered old x rest b)

  -- The loop that sorts the destination's objects into those to add and those to alter.
  unfoldable pub compared :
      (A → Bool)
      → (A → Outcome (Option A))
      → (A → A → Outcome Bool)
      → List A
      → Outcome (List A × List (A × A))
  compared skip find different [] = ret ([], [])
  compared skip find different (x ∷ xs) =
      let rest = compared skip find different xs in
      let here = find x in
      if skip x
      then rest
      else do found ← here; others ← rest; sort_compared different x others found

-- len(xs) > 0
abbrev pub has_any {ℓ} : {A : Type ℓ} → List A → Bool
has_any [] = false
has_any (x ∷ xs) = true

unfoldable pub is_virtual_table : Table → Bool
is_virtual_table t = t.is_virtual || has_prefix t.sql (codes "CREATE VIRTUAL TABLE")
