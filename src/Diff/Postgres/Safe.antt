-- ===== src/Diff/Postgres/Safe.antt =====
-- The Postgres migration that may not drop objects.
use sqddl.Base.{
  Bool, true, false, ◌||◌, List, [], ◌∷◌, ◌++◌, Option, none, some, ◌≡◌, refl, ◌⊎◌, inl, inr,
  if◌then◌else◌, All, All-append, subst, false≢true,
}
use sqddl.Cache.Build.{new_catalog_cache}
use sqddl.Cache.Slots.{ret}
use sqddl.Cache.State.{CatalogCache}
use sqddl.Catalog.{Catalog, Schema, Table, Constraint}
use sqddl.Diff.Groups.{FkeyGroups, no_groups, group_fkey}
use sqddl.Diff.Lookups.{find_schema, find_table, find_constraint}
use sqddl.Diff.Mysql.Safe.{
  is_pkey, has_pkey, has_pkey-append_left, has_pkey-append_end, DropsForPkey,
}
use sqddl.Diff.Postgres.{
  PostgresAlterTable, PostgresMigration, PostgresKeys, start_postgres, add_postgres_key,
  alter_postgres_key, place_postgres_constraint, postgres_constraint_step, is_postgres_change,
  add_postgres_alteration, with_postgres_keys, postgres_columns, postgres_new_indexes,
  replaced_pkey, alter_postgres_table, create_postgres_table, create_unless_ignored,
  create_or_alter, table_step, create_or_diff_schema, schema_step, new_postgres_migration,
}
use sqddl.Diff.Returns.{
  IfReturns, IfReturns-bind, IfReturns-bind_with, IfReturns-if, each_step-IfReturns,
}
use sqddl.Diff.Steps.{each_step, find_foreign_keys, find_primary_key, is_key, is_fkey, only}

-- The flag tells of a primary key that is added.
abbrev IsFlagged : PostgresKeys → Type 0
IsFlagged keys = keys.adding_primary_key ≡ true → has_pkey keys.adds ≡ true

or-cases : (a b : Bool) → (a || b) ≡ true → (a ≡ true) ⊎ (b ≡ true)
or-cases true b h = inl refl
or-cases false b h = inr h

add_postgres_key-IsFlagged :
    (x : Constraint) (keys : PostgresKeys)
    → IsFlagged keys
    → IfReturns IsFlagged (add_postgres_key x keys)
unfolding add_postgres_key
add_postgres_key-IsFlagged x keys h = IfReturns-if IsFlagged (is_key x) _ _ adding (
    IfReturns-if IsFlagged (is_fkey x) _ _
      (IfReturns-bind IsFlagged (group_fkey x keys.fkeys) _ (λ groups. h)) h)
  where
    adding : keys.adding_primary_key || is_pkey x ≡ true → has_pkey (keys.adds ++ x ∷ []) ≡ true
    adding e = elim (or-cases keys.adding_primary_key (is_pkey x) e) [
      | inl before ↦ has_pkey-append_left keys.adds (x ∷ []) (h before)
      | inr now ↦ has_pkey-append_end keys.adds x now
    ]

alter_postgres_key-IsFlagged :
    (old x : Constraint) (keys : PostgresKeys)
    → IsFlagged keys
    → IsFlagged (alter_postgres_key old x keys)
unfolding alter_postgres_key
alter_postgres_key-IsFlagged old x keys h = by_test _
  where
    by_test :
        (b : Bool)
        → IsFlagged (if b then record keys { alters = keys.alters ++ (old, x) ∷ [] } else keys)
    by_test true = h
    by_test false = h

place_postgres_constraint-IsFlagged :
    (x : Constraint) (keys : PostgresKeys) (o : Option Constraint)
    → IsFlagged keys
    → IfReturns IsFlagged (place_postgres_constraint x keys o)
place_postgres_constraint-IsFlagged x keys none h = add_postgres_key-IsFlagged x keys h
place_postgres_constraint-IsFlagged x keys (some old) h = alter_postgres_key-IsFlagged old x keys h

-- The alteration drops no index and no column, and a constraint only for a new primary key.
abbrev pub KeepsAll : PostgresAlterTable → Type 0
KeepsAll a =
    (a.drop_indexes ≡ [])
    × (a.drop_columns ≡ [])
    × DropsForPkey a.drop_constraints a.add_constraints_concurrently

-- No schema, table or foreign key is dropped.
abbrev pub OnlyAdds : PostgresMigration → Type 0
OnlyAdds m =
    (m.drop_schemas ≡ [])
    × (m.drop_tables ≡ [])
    × (m.drop_fkeys ≡ no_groups)
    × All KeepsAll m.alter_tables

add_postgres_alteration-KeepsAll :
    (a : PostgresAlterTable) (done : List PostgresAlterTable)
    → KeepsAll a
    → All KeepsAll done
    → All KeepsAll (add_postgres_alteration a done)
unfolding add_postgres_alteration
add_postgres_alteration-KeepsAll a done k h = by_test (is_postgres_change a)
  where
    by_test : (b : Bool) → All KeepsAll (if b then done ++ a ∷ [] else done)
    by_test true = All-append KeepsAll done (a ∷ []) h (k, tt)
    by_test false = h

with_postgres_keys-OnlyAdds :
    (adds : FkeyGroups) (a : PostgresAlterTable) (m : PostgresMigration)
    → KeepsAll a
    → OnlyAdds m
    → OnlyAdds (with_postgres_keys m.drop_fkeys adds a m)
unfolding with_postgres_keys
with_postgres_keys-OnlyAdds adds a m k (schemas, tables, drops, kept) =
    (schemas, tables, drops, add_postgres_alteration-KeepsAll a m.alter_tables k kept)

module _ (src_cache dest_cache : CatalogCache) where
  postgres_constraint_step-IsFlagged :
      (src : Table) (x : Constraint) (keys : PostgresKeys)
      → IsFlagged keys
      → IfReturns IsFlagged (postgres_constraint_step src_cache dest_cache false src x keys)
  unfolding postgres_constraint_step
  postgres_constraint_step-IsFlagged src x keys h = IfReturns-if IsFlagged x.ignore _ _ h (
      IfReturns-bind IsFlagged (find_constraint src_cache src x.constraint_name) _
        (λ found. place_postgres_constraint-IsFlagged x keys found h))

  replaced_pkey-DropsForPkey :
      (src : Table) (adding : Bool) (adds : List Constraint)
      → (adding ≡ true → has_pkey adds ≡ true)
      → IfReturns
          (λ drops. DropsForPkey drops adds)
          (replaced_pkey src_cache dest_cache false src adding)
  unfolding replaced_pkey
  replaced_pkey-DropsForPkey src true adds h =
      IfReturns-bind (λ drops. DropsForPkey drops adds) (find_primary_key src_cache src) _
        (λ found. inr (h refl))
  replaced_pkey-DropsForPkey src false adds h = inl refl

  alter_postgres_table-OnlyAdds :
      (src dest : Table) (m : PostgresMigration)
      → OnlyAdds m
      → IfReturns OnlyAdds (alter_postgres_table src_cache dest_cache false src dest m)
  unfolding alter_postgres_table only each_step
  alter_postgres_table-OnlyAdds src dest m o =
      IfReturns-bind OnlyAdds (postgres_columns src_cache dest_cache false src dest m) _ (λ columns.
        IfReturns-bind OnlyAdds (postgres_new_indexes src_cache dest_cache false src dest) _
          (λ created.
            IfReturns-bind_with OnlyAdds IsFlagged
              (each_step (postgres_constraint_step src_cache dest_cache false src) dest.constraints
                (record {
                  adds = [];
                  alters = [];
                  fkeys = m.add_fkeys;
                  adding_primary_key = false;
                }))
              _
              (each_step-IfReturns IsFlagged _ (postgres_constraint_step-IsFlagged src)
                dest.constraints _ (λ e. absurd (false≢true e)))
              (λ keys h.
                IfReturns-bind_with OnlyAdds (λ drops. DropsForPkey drops keys.adds)
                  (replaced_pkey src_cache dest_cache false src keys.adding_primary_key) _
                  (replaced_pkey-DropsForPkey src keys.adding_primary_key keys.adds h)
                  (λ replaced d. with_postgres_keys-OnlyAdds keys.fkeys _ m (refl, refl, d) o))))

  create_postgres_table-OnlyAdds :
      (t : Table) (m : PostgresMigration)
      → OnlyAdds m
      → IfReturns OnlyAdds (create_postgres_table src_cache dest_cache false t m)
  unfolding create_postgres_table
  create_postgres_table-OnlyAdds t m h =
      IfReturns-bind OnlyAdds (find_foreign_keys dest_cache t) _ (λ fkeys.
        IfReturns-bind OnlyAdds (each_step group_fkey fkeys m.add_fast_fkeys) _ (λ groups. h))

  create_or_alter-OnlyAdds :
      (t : Table) (m : PostgresMigration) (o : Option Table)
      → OnlyAdds m
      → IfReturns OnlyAdds (create_or_alter src_cache dest_cache false t m o)
  unfolding create_or_alter
  create_or_alter-OnlyAdds t m none h = create_postgres_table-OnlyAdds t m h
  create_or_alter-OnlyAdds t m (some old) h = alter_postgres_table-OnlyAdds old t m h

  table_step-OnlyAdds :
      (src : Schema) (t : Table) (m : PostgresMigration)
      → OnlyAdds m
      → IfReturns OnlyAdds (table_step src_cache dest_cache false src t m)
  unfolding table_step
  table_step-OnlyAdds src t m h = IfReturns-if OnlyAdds t.ignore _ _ h (
      IfReturns-bind OnlyAdds (find_table src_cache src t.table_name) _
        (λ found. create_or_alter-OnlyAdds t m found h))

  create_unless_ignored-OnlyAdds :
      (t : Table) (m : PostgresMigration)
      → OnlyAdds m
      → IfReturns OnlyAdds (create_unless_ignored src_cache dest_cache false t m)
  unfolding create_unless_ignored
  create_unless_ignored-OnlyAdds t m h =
      IfReturns-if OnlyAdds t.ignore _ _ h (create_postgres_table-OnlyAdds t m h)

  create_or_diff_schema-OnlyAdds :
      (dest : Schema) (m : PostgresMigration) (o : Option Schema)
      → OnlyAdds m
      → IfReturns OnlyAdds (create_or_diff_schema src_cache dest_cache false dest m o)
  unfolding create_or_diff_schema
  create_or_diff_schema-OnlyAdds dest m none h =
      each_step-IfReturns OnlyAdds _ create_unless_ignored-OnlyAdds dest.tables _ h
  create_or_diff_schema-OnlyAdds dest m (some src) h =
      each_step-IfReturns OnlyAdds _ (table_step-OnlyAdds src) dest.tables m h

  schema_step-OnlyAdds :
      (src : Catalog) (dest : Schema) (m : PostgresMigration)
      → OnlyAdds m
      → IfReturns OnlyAdds (schema_step src_cache dest_cache false src dest m)
  unfolding schema_step
  schema_step-OnlyAdds src dest m h = IfReturns-if OnlyAdds dest.ignore _ _ h (
      IfReturns-bind OnlyAdds (find_schema src_cache src dest.schema_name) _
        (λ found. create_or_diff_schema-OnlyAdds dest m found h))

-- A migration that newPostgresMigration returns when objects may not be dropped drops no schema,
-- table, foreign key, index or column, and drops constraints of a table only if it adds a primary
-- key to it.
pub new_postgres_migration-additive :
    (src dest : Catalog) (m : PostgresMigration)
    → new_postgres_migration src dest false ≡ ret m
    → OnlyAdds m
unfolding new_postgres_migration
new_postgres_migration-additive src dest m e = subst (IfReturns OnlyAdds) e (
    each_step-IfReturns OnlyAdds _
      (schema_step-OnlyAdds (new_catalog_cache src) (new_catalog_cache dest) src) dest.schemas
      (start_postgres src) (refl, refl, refl, tt))
