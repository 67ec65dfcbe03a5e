-- ===== src/Diff/Sqlserver/Safe.antt =====
-- The SQL Server migration that may not drop objects.
use sqddl.Base.{
  ℕ, Bool, true, false, List, [], ◌∷◌, ◌++◌, Option, none, some, ◌≡◌, refl, ap, map, length,
  if◌then◌else◌, All, All-append, subst, leb,
}
use sqddl.Cache.Build.{new_catalog_cache}
use sqddl.Cache.Slots.{ret}
use sqddl.Cache.State.{CatalogCache}
use sqddl.Catalog.{Catalog, Schema, Table, Constraint, Index}
use sqddl.Diff.Groups.{group_fkey}
use sqddl.Diff.Lookups.{find_schema, find_table}
use sqddl.Diff.Returns.{
  IfReturns, IfReturns-bind, IfReturns-bind_with, IfReturns-if, each_step-IfReturns,
}
use sqddl.Diff.Sqlserver.{SqlserverAlterTable, SqlserverMigration, start_sqlserver}
use sqddl.Diff.Sqlserver.Columns.{SqlserverColumns}
use sqddl.Diff.Sqlserver.Dependencies.{SqlserverRemakes, mark_lost, lost}
use sqddl.Diff.Sqlserver.New.{
  is_sqlserver_change, add_sqlserver_alteration, with_sqlserver_changes, replaced_keys,
  replaced_pkey_at, alter_sqlserver_table, create_sqlserver_table, create_unless_ignored,
  create_or_alter, table_step, create_or_diff_schema, schema_step, new_sqlserver_migration,
}
use sqddl.Diff.Sqlserver.Remade.{IsRemade, AreRemade, AreRemade-refl, remake_dependents-AreRemade}
use sqddl.Diff.Steps.{each_step, find_foreign_keys, is_key, only}

-- The alteration drops no column; all indexes that it drops it makes again, and so all constraints
-- but one at most, the primary key that another one replaces.
pub record KeepsAll (a : SqlserverAlterTable) : Type 0 where
  pub columns : a.drop_columns ≡ []
  pub new_indexes : List Index
  pub indexes : IsRemade [] new_indexes a.drop_indexes a.create_indexes
  pub replaced : List Constraint
  pub at_most_one : leb (length replaced) 1 ≡ true
  pub new_constraints : List Constraint
  pub constraints : IsRemade replaced new_constraints a.drop_constraints a.add_constraints

-- No schema or table is dropped.
abbrev pub OnlyAdds : SqlserverMigration → Type 0
OnlyAdds m = (m.drop_schemas ≡ []) × (m.drop_tables ≡ []) × All KeepsAll m.alter_tables

lost-unmarked : {A : Type 0} (xs : List A) → lost (map (λ x. (x, false)) xs) ≡ []
unfolding lost
lost-unmarked [] = refl
lost-unmarked (x ∷ xs) = lost-unmarked xs

replaced_keys-at_most_one : (o : Option (ℕ × Constraint)) → leb (length (replaced_keys o)) 1 ≡ true
replaced_keys-at_most_one none = refl
replaced_keys-at_most_one (some (i, x)) = refl

add_sqlserver_alteration-KeepsAll :
    (a : SqlserverAlterTable) (done : List SqlserverAlterTable)
    → KeepsAll a
    → All KeepsAll done
    → All KeepsAll (add_sqlserver_alteration a done)
unfolding add_sqlserver_alteration
add_sqlserver_alteration-KeepsAll a done k h = by_test (is_sqlserver_change a)
  where
    by_test : (b : Bool) → All KeepsAll (if b then done ++ a ∷ [] else done)
    by_test true = All-append KeepsAll done (a ∷ []) h (k, tt)
    by_test false = h

with_sqlserver_changes-OnlyAdds :
    (replaced : Option (ℕ × Constraint)) (start r : SqlserverRemakes) (columns : SqlserverColumns)
    (pkey : Option Constraint) (dest : Table) (m : SqlserverMigration)
    → start.drop_indexes ≡ []
    → start.drop_constraints ≡ replaced_keys replaced
    → AreRemade start r
    → OnlyAdds m
    → OnlyAdds (with_sqlserver_changes r columns pkey [] dest m)
unfolding with_sqlserver_changes
with_sqlserver_changes-OnlyAdds replaced start r columns pkey dest m e f h (schemas, tables, kept) =
    (
      schemas,
      tables,
      add_sqlserver_alteration-KeepsAll _ m.alter_tables
          (record {
            columns = refl;
            new_indexes = start.create_indexes;
            indexes =
                subst (λ l. IsRemade l start.create_indexes r.drop_indexes r.create_indexes) e
                  h.indexes;
            replaced = replaced_keys replaced;
            at_most_one = replaced_keys-at_most_one replaced;
            new_constraints = start.add_constraints;
            constraints =
                subst (λ l. IsRemade l start.add_constraints r.drop_constraints r.add_constraints) f
                  h.constraints;
          })
          kept,
    )

module _ (src_cache dest_cache : CatalogCache) where
  alter_sqlserver_table-OnlyAdds :
      (schema : Schema) (src dest : Table) (m : SqlserverMigration)
      → OnlyAdds m
      → IfReturns OnlyAdds (alter_sqlserver_table src_cache dest_cache false schema src dest m)
  unfolding alter_sqlserver_table mark_lost only
  alter_sqlserver_table-OnlyAdds schema src dest m o =
      let P = OnlyAdds in
      IfReturns-bind P (each_step group_fkey _ m.drop_fkeys) _ (λ drops.
        IfReturns-bind P (each_step _ dest.columns _) _ (λ columns.
          IfReturns-bind P _ _ (λ new_indexes.
            IfReturns-bind P (each_step _ dest.constraints _) _ (λ keys.
              IfReturns-bind P (replaced_pkey_at src_cache dest_cache false src dest) _ (λ replaced.
                IfReturns-bind_with P (AreRemade _) (each_step _ columns.alters _) _
                  (each_step-IfReturns (AreRemade _) _
                    (remake_dependents-AreRemade _ m.add_fast_fkeys.groups _ _) columns.alters _
                    (AreRemade-refl _))
                  (λ r h.
                    with_sqlserver_changes-OnlyAdds replaced _ r columns keys.pkey dest m
                      (lost-unmarked src.indexes)
                      (ap (λ l. only is_key l ++ replaced_keys replaced)
                        (lost-unmarked src.constraints))
                      h o))))))

  create_sqlserver_table-OnlyAdds :
      (t : Table) (m : SqlserverMigration)
      → OnlyAdds m
      → IfReturns OnlyAdds (create_sqlserver_table src_cache dest_cache false t m)
  unfolding create_sqlserver_table
  create_sqlserver_table-OnlyAdds t m h =
      IfReturns-bind OnlyAdds (find_foreign_keys dest_cache t) _ (λ fkeys.
        IfReturns-bind OnlyAdds (each_step group_fkey fkeys m.add_fast_fkeys) _ (λ groups. h))

  create_or_alter-OnlyAdds :
      (schema : Schema) (t : Table) (m : SqlserverMigration) (o : Option Table)
      → OnlyAdds m
      → IfReturns OnlyAdds (create_or_alter src_cache dest_cache false schema t m o)
  unfolding create_or_alter
  create_or_alter-OnlyAdds schema t m none h = create_sqlserver_table-OnlyAdds t m h
  create_or_alter-OnlyAdds schema t m (some old) h = alter_sqlserver_table-OnlyAdds schema old t m h

  table_step-OnlyAdds :
      (src dest : Schema) (t : Table) (m : SqlserverMigration)
      → OnlyAdds m
      → IfReturns OnlyAdds (table_step src_cache dest_cache false src dest t m)
  unfolding table_step
  table_step-OnlyAdds src dest t m h = IfReturns-if OnlyAdds t.ignore _ _ h (
      IfReturns-bind OnlyAdds (find_table src_cache src t.table_name) _
        (λ found. create_or_alter-OnlyAdds dest t m found h))

  create_unless_ignored-OnlyAdds :
      (t : Table) (m : SqlserverMigration)
      → OnlyAdds m
      → IfReturns OnlyAdds (create_unless_ignored src_cache dest_cache false t m)
  unfolding create_unless_ignored
  create_unless_ignored-OnlyAdds t m h =
      IfReturns-if OnlyAdds t.ignore _ _ h (create_sqlserver_table-OnlyAdds t m h)

  create_or_diff_schema-OnlyAdds :
      (dest : Schema) (m : SqlserverMigration) (o : Option Schema)
      → OnlyAdds m
      → IfReturns OnlyAdds (create_or_diff_schema src_cache dest_cache false dest m o)
  unfolding create_or_diff_schema
  create_or_diff_schema-OnlyAdds dest m none h =
      each_step-IfReturns OnlyAdds _ create_unless_ignored-OnlyAdds dest.tables _ h
  create_or_diff_schema-OnlyAdds dest m (some src) h =
      each_step-IfReturns OnlyAdds _ (table_step-OnlyAdds src dest) dest.tables m h

  schema_step-OnlyAdds :
      (src : Catalog) (dest : Schema) (m : SqlserverMigration)
      → OnlyAdds m
      → IfReturns OnlyAdds (schema_step src_cache dest_cache false src dest m)
  unfolding schema_step
  schema_step-OnlyAdds src dest m h = IfReturns-if OnlyAdds dest.ignore _ _ h (
      IfReturns-bind OnlyAdds (find_schema src_cache src dest.schema_name) _
        (λ found. create_or_diff_schema-OnlyAdds dest m found h))

-- A migration that newSQLServerMigration returns when objects may not be dropped drops no schema,
-- table or column. The indexes that an alteration drops are made again, the same ones behind those
-- that are new; and so are the constraints that it drops, behind one at most that is not.
pub new_sqlserver_migration-additive :
    (src dest : Catalog) (m : SqlserverMigration)
    → new_sqlserver_migration src dest false ≡ ret m
    → OnlyAdds m
unfolding new_sqlserver_migration
new_sqlserver_migration-additive src dest m e = subst (IfReturns OnlyAdds) e (
    each_step-IfReturns OnlyAdds _
      (schema_step-OnlyAdds (new_catalog_cache src) (new_catalog_cache dest) src) dest.schemas
      (start_sqlserver src) (refl, refl, tt))
