-- ===== src/Diff/Sqlserver/Remade.antt =====
-- sqlserver_migration.go: the indexes and constraints that stand on altered columns.
use sqddl.Base.{Bool, List, [], ◌∷◌, ◌++◌, ◌≡◌, ap, ◌∙◌, append_assoc, append-nil, sym}
use sqddl.Catalog.{Column, Constraint, Index}
use sqddl.Diff.Returns.{IfReturns, IfReturns-bind, IfReturns-if, each_step-IfReturns}
use sqddl.Diff.Sqlserver.Dependencies.{
  SqlserverRemakes, regroup_drop, regroup_add, remake_fkey, remake_constraint, remake_indexes,
  remake_dependents,
}
use sqddl.Diff.Steps.{is_key, is_fkey}

-- The same objects, in the same order, are added behind `drops` and behind `adds`.
pub record IsRemade {A : Type 0} (drops adds dropped added : List A) : Type 0 where
  pub again : List A
  pub dropped_is : dropped ≡ drops ++ again
  pub added_is : added ≡ adds ++ again

module _ {A : Type 0} (drops adds : List A) where
  pub IsRemade-refl : IsRemade drops adds drops adds
  IsRemade-refl = record {
    again = [];
    dropped_is = sym (append-nil drops);
    added_is = sym (append-nil adds);
  }

  pub IsRemade-append :
      (dropped added xs : List A)
      → IsRemade drops adds dropped added
      → IsRemade drops adds (dropped ++ xs) (added ++ xs)
  IsRemade-append dropped added xs r = record {
    again = r.again ++ xs;
    dropped_is = ap (λ l. l ++ xs) r.dropped_is ∙ append_assoc drops r.again xs;
    added_is = ap (λ l. l ++ xs) r.added_is ∙ append_assoc adds r.again xs;
  }

-- Indexes, and primary keys and unique constraints, are only dropped to be made again.
pub record AreRemade (start r : SqlserverRemakes) : Type 0 where
  pub indexes : IsRemade start.drop_indexes start.create_indexes r.drop_indexes r.create_indexes
  pub constraints :
      IsRemade start.drop_constraints start.add_constraints r.drop_constraints r.add_constraints

pub AreRemade-refl : (start : SqlserverRemakes) → AreRemade start start
AreRemade-refl start = record {
  indexes = IsRemade-refl start.drop_indexes start.create_indexes;
  constraints = IsRemade-refl start.drop_constraints start.add_constraints;
}

module _ (start : SqlserverRemakes) (fast : List (List Constraint)) where
  remake_constraint-AreRemade :
      (x : Constraint) (r : SqlserverRemakes)
      → AreRemade start r
      → IfReturns (AreRemade start) (remake_constraint fast x r)
  unfolding remake_constraint remake_fkey
  remake_constraint-AreRemade x r h =
      IfReturns-if (AreRemade start) (is_key x) _ _
        (record {
          indexes = h.indexes;
          constraints =
              IsRemade-append start.drop_constraints start.add_constraints r.drop_constraints
                r.add_constraints (x ∷ []) h.constraints;
        })
        (IfReturns-if (AreRemade start) (is_fkey x) _ _
          (IfReturns-bind (AreRemade start) (regroup_drop x r.drop_fkeys _) _ (λ drops.
            IfReturns-bind (AreRemade start) (regroup_add fast x r.add_fkeys _) _
              (λ adds. record { indexes = h.indexes; constraints = h.constraints })))
          h)

  remake_indexes-AreRemade :
      (xs : List Index) (r : SqlserverRemakes)
      → AreRemade start r
      → AreRemade start (remake_indexes fast xs r)
  unfolding remake_indexes
  remake_indexes-AreRemade xs r h = record {
    indexes =
        IsRemade-append start.drop_indexes start.create_indexes r.drop_indexes r.create_indexes xs
          h.indexes;
    constraints = h.constraints;
  }

  pub remake_dependents-AreRemade :
      (indexes : List (Index × Bool)) (constraints : List (Constraint × Bool))
      (pair : Column × Column) (r : SqlserverRemakes)
      → AreRemade start r
      → IfReturns (AreRemade start) (remake_dependents fast indexes constraints pair r)
  unfolding remake_dependents
  remake_dependents-AreRemade indexes constraints pair r h =
      each_step-IfReturns (AreRemade start) (remake_constraint fast) remake_constraint-AreRemade _ _
        (remake_indexes-AreRemade _ r h)
