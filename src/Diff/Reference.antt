-- ===== src/Diff/Reference.antt =====
-- The loops of Lookups without caches: what they come to when each Get function finds the first live
-- item of a name in the slice.
use sqddl.Base.{
  Bool, true, false, List, [], ◌∷◌, Option, none, some, ◌≡◌, refl, if◌then◌else◌, Bytes,
}
use sqddl.Cache.Build.WellFormed.{Agrees, AgreesOnTable}
use sqddl.Cache.Constraints.{constraint_ignored, constraint_name, constraint_key, get_constraint}
use sqddl.Cache.Instances.{table_distinct, column_distinct, index_distinct}
use sqddl.Cache.Schemas.{table_ignored, table_name, table_key, get_table}
use sqddl.Cache.Slots.{Outcome, ret}
use sqddl.Cache.Slots.Named.{live_named, visible-live_named}
use sqddl.Cache.State.{CatalogCache}
use sqddl.Cache.Tables.{
  column_ignored, column_name, column_key, get_column, index_ignored, index_name, index_key,
  get_index,
}
use sqddl.Catalog.{Schema, Table, Column, Constraint, Index}
use sqddl.Diff.Lookups.{
  find_table, find_column, find_constraint, find_index, keep_missing, missing, put_altered,
  compared,
}

-- The live object of a name in a schema or table.
abbrev pub table_named : Schema → Bytes → Option Table
table_named s n = live_named table_ignored table_name n s.tables

abbrev pub column_named : Table → Bytes → Option Column
column_named t n = live_named column_ignored column_name n t.columns

abbrev pub constraint_named : Table → Bytes → Option Constraint
constraint_named t n = live_named constraint_ignored constraint_name n t.constraints

abbrev pub index_named : Table → Bytes → Option Index
index_named t n = live_named index_ignored index_name n t.indexes

module _ {A B : Type 0} where
  -- the items that are not skipped and are not found
  unfoldable pub unfound : (A → Bool) → (A → Option B) → List A → List A
  unfound skip find [] = []
  unfound skip find (x ∷ xs) =
      if skip x then unfound skip find xs else keep_missing x (find x) (unfound skip find xs)

  pub missing_is :
      (skip : A → Bool) (f : A → Outcome (Option B)) (find : A → Option B)
      → ((x : A) → f x ≡ ret (find x))
      → (xs : List A) → missing skip f xs ≡ ret (unfound skip find xs)
  unfolding missing unfound
  missing_is skip f find h [] = refl
  missing_is skip f find h (x ∷ xs) =
      rw (h x, missing_is skip f find h xs) (by_test (skip x) (find x) (unfound skip find xs) x)
    where
      by_test :
          (b : Bool) (found : Option B) (rest : List A) (x : A)
          → (if b then ret rest else ret (keep_missing x found rest))
            ≡ ret (if b then rest else keep_missing x found rest)
      by_test true found rest x = refl
      by_test false found rest x = refl

module _ {A : Type 0} where
  abbrev pub place : (A → A → Bool) → A → List A × List (A × A) → Option A → List A × List (A × A)
  place differ x rest none = (x ∷ rest.0, rest.1)
  place differ x rest (some old) = put_altered old x rest (differ old x)

  -- the items that are not skipped: those that are not found, and those that differ with the found
  unfoldable pub sorted_out :
      (A → Bool) → (A → Option A) → (A → A → Bool) → List A → List A × List (A × A)
  sorted_out skip find differ [] = ([], [])
  sorted_out skip find differ (x ∷ xs) =
      if skip x
      then sorted_out skip find differ xs
      else place differ x (sorted_out skip find differ xs) (find x)

  pub compared_is :
      (skip : A → Bool) (f : A → Outcome (Option A)) (find : A → Option A) (differ : A → A → Bool)
      → ((x : A) → f x ≡ ret (find x))
      → (xs : List A)
      → compared skip f (λ old new. ret (differ old new)) xs ≡ ret (sorted_out skip find differ xs)
  unfolding compared sorted_out
  compared_is skip f find differ h [] = refl
  compared_is skip f find differ h (x ∷ xs) =
      rw (h x, compared_is skip f find differ h xs)
        (by_test (skip x) (find x) (sorted_out skip find differ xs) x)
    where
      by_test :
          (b : Bool) (found : Option A) (rest : List A × List (A × A)) (x : A)
          → (if b then ret rest else (elim found [
            | none ↦ ret (x ∷ rest.0, rest.1)
            | some old ↦ ret (put_altered old x rest (differ old x))
          ]))
            ≡ ret (if b then rest else place differ x rest found)
      by_test true found rest x = refl
      by_test false none rest x = refl
      by_test false (some old) rest x = refl

-- In a cache that agrees, a lookup is the first live object of the name.
pub find_table-named :
    (cache : CatalogCache) (s : Schema) (n : Bytes)
    → Agrees cache s
    → find_table cache s n ≡ ret (table_named s n)
unfolding find_table get_table
find_table-named cache s n a =
    visible-live_named table_ignored table_name (table_key s) (table_distinct s) _ n a.tables

module _ (cache : CatalogCache) (t : Table) (n : Bytes) (a : AgreesOnTable cache t) where
  pub find_column-named : find_column cache t n ≡ ret (column_named t n)
  unfolding find_column get_column
  find_column-named =
      visible-live_named column_ignored column_name (column_key t) (column_distinct t) _ n a.columns

  pub find_constraint-named : find_constraint cache t n ≡ ret (constraint_named t n)
  unfolding find_constraint get_constraint
  find_constraint-named =
      visible-live_named constraint_ignored constraint_name (constraint_key t) (λ n m e. cc) _ n
        a.constraints

  pub find_index-named : find_index cache t n ≡ ret (index_named t n)
  unfolding find_index get_index
  find_index-named =
      visible-live_named index_ignored index_name (index_key t) (index_distinct t) _ n a.indexes
