-- ===== src/Diff/Sqlserver/Dependencies.antt =====
-- ddl/sqlserver_migration.go: which indexes and constraints of the source's table are dropped
-- (droppedIndex, droppedConstraint), and those that stand on an altered column, which are dropped and
-- made again. A pointer to an object of the table is its place in the list.
use sqddl.Base.{
  ℕ, zero, suc, Bool, true, false, ◌||◌, List, [], ◌∷◌, ◌++◌, Option, none, some, if◌then◌else◌,
  Bytes, map, text_eq,
}
use sqddl.Cache.Constraints.{constraint_ignored}
use sqddl.Cache.Maps.{lookup}
use sqddl.Cache.Slots.{Outcome, ret, panic, ◌>>=◌}
use sqddl.Cache.Tables.{index_ignored}
use sqddl.Catalog.{Column, Constraint, Index}
use sqddl.Diff.Groups.{FkeyGroups, tables_id, append_at}
use sqddl.Diff.Steps.{each_step, is_key, is_fkey}

abbrev is_nil : {B : Type 0} → Option B → Bool
is_nil none = true
is_nil (some y) = false

module _ {A B : Type 0} where
  -- each object, and whether it is dropped: the other side has none of its name
  unfoldable pub marked : (A → Bool) → (A → Outcome (Option B)) → List A → Outcome (List (A × Bool))
  marked skip find [] = ret []
  marked skip find (x ∷ xs) =
      let rest = marked skip find xs in
      let here = find x in
      if skip x
      then (do others ← rest; ret ((x, false) ∷ others))
      else (do found ← here; others ← rest; ret ((x, is_nil found) ∷ others))

  unfoldable pub mark_lost :
      Bool → (A → Bool) → (A → Outcome (Option B)) → List A → Outcome (List (A × Bool))
  mark_lost drop_objects skip find xs =
      if drop_objects then marked skip find xs else ret (map (λ x. (x, false)) xs)

module _ {A : Type 0} where
  unfoldable pub lost : List (A × Bool) → List A
  lost [] = []
  lost ((x, dropped) ∷ marks) = if dropped then x ∷ lost marks else lost marks

  unfoldable pub mark_at : ℕ → List (A × Bool) → List (A × Bool)
  mark_at n [] = []
  mark_at zero ((x, dropped) ∷ marks) = (x, true) ∷ marks
  mark_at (suc n) (mark ∷ marks) = mark ∷ mark_at n marks

  -- the object once for each of its columns that has the name
  unfoldable pub repeated : Bytes → List Bytes → A → List A
  repeated name [] x = []
  repeated name (c ∷ columns) x =
      if text_eq c name then x ∷ repeated name columns x else repeated name columns x

  -- the objects that stand on the column and are not dropped already
  unfoldable pub dependents : (A → Bool) → (A → List Bytes) → Bytes → List (A × Bool) → List A
  dependents skip columns_of name [] = []
  dependents skip columns_of name ((x, dropped) ∷ marks) =
      if skip x || dropped
      then dependents skip columns_of name marks
      else repeated name (columns_of x) x ++ dependents skip columns_of name marks

-- the parts of the alteration and of the migration that the loop changes
pub record SqlserverRemakes : Type 0 where
  pub drop_indexes : List Index
  pub create_indexes : List Index
  pub drop_constraints : List Constraint
  pub add_constraints : List Constraint
  pub drop_fkeys : FkeyGroups
  pub add_fkeys : FkeyGroups

-- a group whose position is not written down
abbrev pub add_group : Constraint → FkeyGroups → FkeyGroups
add_group x g = record g { groups = g.groups ++ (x ∷ []) ∷ [] }

unfoldable pub regroup_drop : Constraint → FkeyGroups → Option ℕ → Outcome FkeyGroups
regroup_drop x g none = ret (add_group x g)
regroup_drop x g (some n) = do groups ← append_at n x g.groups; ret (record g { groups = groups })

-- groups[n]
unfoldable pub group_at : ℕ → List (List Constraint) → Outcome (List Constraint)
group_at n [] = panic
group_at zero (g ∷ gs) = ret g
group_at (suc n) (g ∷ gs) = group_at n gs

-- groups[n] = fkeys
unfoldable pub set_group :
    ℕ → List Constraint → List (List Constraint) → Outcome (List (List Constraint))
set_group n fkeys [] = panic
set_group zero fkeys (g ∷ gs) = ret (fkeys ∷ gs)
set_group (suc n) fkeys (g ∷ gs) = do rest ← set_group n fkeys gs; ret (g ∷ rest)

-- the group gets the keys of m.addFastFkeys at its position, not its own
unfoldable pub regroup_add :
    List (List Constraint) → Constraint → FkeyGroups → Option ℕ → Outcome FkeyGroups
regroup_add fast x g none = ret (add_group x g)
regroup_add fast x g (some n) = do
  fkeys ← group_at n fast
  groups ← set_group n (fkeys ++ x ∷ []) g.groups
  ret (record g { groups = groups })

module _ (fast : List (List Constraint)) where
  unfoldable pub remake_fkey : Constraint → SqlserverRemakes → Outcome SqlserverRemakes
  remake_fkey x r = do
    drops ← regroup_drop x r.drop_fkeys (lookup (tables_id x) r.drop_fkeys.positions)
    adds ← regroup_add fast x r.add_fkeys (lookup (tables_id x) r.add_fkeys.positions)
    ret (record r { drop_fkeys = drops; add_fkeys = adds })

  unfoldable pub remake_constraint : Constraint → SqlserverRemakes → Outcome SqlserverRemakes
  remake_constraint x r =
      if is_key x
      then ret (record r {
        drop_constraints = r.drop_constraints ++ x ∷ [];
        add_constraints = r.add_constraints ++ x ∷ [];
      })
      else if is_fkey x
      then remake_fkey x r
      else ret r

  unfoldable pub remake_indexes : List Index → SqlserverRemakes → SqlserverRemakes
  remake_indexes xs r = record r {
    drop_indexes = r.drop_indexes ++ xs;
    create_indexes = r.create_indexes ++ xs;
  }

  unfoldable pub remake_dependents :
      List (Index × Bool)
      → List (Constraint × Bool)
      → Column × Column
      → SqlserverRemakes
      → Outcome SqlserverRemakes
  remake_dependents indexes constraints pair r =
      each_step remake_constraint
        (dependents constraint_ignored (λ x. x.columns) pair.0.column_name constraints)
        (remake_indexes (dependents index_ignored (λ x. x.columns) pair.0.column_name indexes) r)
