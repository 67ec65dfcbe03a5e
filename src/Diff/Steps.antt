-- ===== src/Diff/Steps.antt =====
-- ddl/mysql_migration.go, ddl/postgres_migration.go and ddl/sqlserver_migration.go: what the three
-- share: loops that change the migration, and when two columns are different.
use sqddl.Base.{
  Bool, not, ◌&&◌, ◌||◌, List, [], ◌∷◌, Option, none, some, if◌then◌else◌, ℕ, get_elem?, Bytes,
  text_eq,
}
use sqddl.Cache.Constraints.{get_foreign_keys, get_primary_key}
use sqddl.Cache.Slots.{Outcome, ret, ◌>>=◌}
use sqddl.Cache.Slots.Visible.{at_position}
use sqddl.Cache.State.{CatalogCache}
use sqddl.Catalog.{Table, Column, Constraint, primary_key, unique, foreign_key}
use sqddl.Helpers.ColumnTypes.{normalize_column_type, normalize_column_default}
use sqddl.Writers.Pieces.{is_given}

-- for x in xs { step(x) }
unfoldable pub each_step {ℓ} :
    {A : Type ℓ} {S : Type 0} → (A → S → Outcome S) → List A → S → Outcome S
each_step step [] s = ret s
each_step step (x ∷ xs) s = do next ← step x s; each_step step xs next

-- if b { s = step(s) }
abbrev pub step_if : {S : Type 0} → Bool → (S → Outcome S) → S → Outcome S
step_if b step s = if b then step s else ret s

-- if dropObjects, the objects that are lost
abbrev pub if_dropping {ℓ} : {A : Type ℓ} → Bool → Outcome (List A) → Outcome (List A)
if_dropping drop_objects found = if drop_objects then found else ret []

abbrev pub items_at : List Constraint → List ℕ → List Constraint
items_at items [] = []
items_at items (i ∷ is) = elim (get_elem? items i) [
  | none ↦ items_at items is
  | some x ↦ x ∷ items_at items is
]

unfoldable pub find_foreign_keys : CatalogCache → Table → Outcome (List Constraint)
find_foreign_keys cache t = do
  found ← get_foreign_keys cache (some t)
  ret (items_at t.constraints found)

unfoldable pub find_primary_key : CatalogCache → Table → Outcome (Option Constraint)
find_primary_key cache t = do
  found ← get_primary_key cache (some t)
  ret (at_position t.constraints found)

-- case PRIMARY_KEY, UNIQUE
abbrev pub is_key : Constraint → Bool
is_key x = text_eq x.constraint_type primary_key || text_eq x.constraint_type unique

abbrev pub is_fkey : Constraint → Bool
is_fkey x = text_eq x.constraint_type foreign_key

unfoldable pub only {ℓ} : {A : Type ℓ} → (A → Bool) → List A → List A
only test [] = []
only test (x ∷ xs) = if test x then x ∷ only test xs else only test xs

abbrev pub triple_eq : Bytes × Bytes × Bytes → Bytes × Bytes × Bytes → Bool
triple_eq a b = text_eq a.0 b.0 && (text_eq a.1 b.1 && text_eq a.2 b.2)

unfoldable pub types_differ : Bytes → Column → Column → Outcome Bool
types_differ dialect old new = do
  a ← normalize_column_type dialect old.column_type
  b ← normalize_column_type dialect new.column_type
  ret (not (triple_eq a b))

abbrev pub defaults_differ : Bytes → Column → Column → Bool
defaults_differ dialect old new = not (
    text_eq (normalize_column_default dialect old.column_default)
      (normalize_column_default dialect new.column_default))

abbrev pub flags_differ : Bool → Bool → Bool
flags_differ a b = if a then not b else b

-- the collation of the column, or else the default one
abbrev pub collation_or : Bytes → Column → Bytes
collation_or default_collation x =
    if is_given x.collation_name then x.collation_name else default_collation

abbrev pub collations_differ : Bytes → Column → Column → Bool
collations_differ default_collation old new =
    not (text_eq (collation_or default_collation old) (collation_or default_collation new))

abbrev pub identities_differ : Column → Column → Bool
identities_differ old new =
    flags_differ (is_given old.column_identity) (is_given new.column_identity)

-- columnsAreDifferent of MySQL and Postgres, where a primary key is not null anyway
unfoldable pub columns_differ : Bytes → Bytes → Column → Column → Outcome Bool
columns_differ dialect default_collation old new = do
  types ← types_differ dialect old new
  ret (
      types
      || (defaults_differ dialect old new
          || ((flags_differ old.is_not_null new.is_not_null && not new.is_primary_key)
              || (identities_differ old new || collations_differ default_collation old new))))

-- columnsAreDifferent of SQL Server
unfoldable pub sqlserver_columns_differ : Bytes → Bytes → Column → Column → Outcome Bool
sqlserver_columns_differ dialect default_collation old new = do
  types ← types_differ dialect old new
  ret (
      types
      || (defaults_differ dialect old new
          || (flags_differ old.is_not_null new.is_not_null
              || collations_differ default_collation old new)))
