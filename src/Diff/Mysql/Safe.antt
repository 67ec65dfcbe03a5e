-- ===== src/Diff/Mysql/Safe.antt =====
-- The MySQL migration that may not drop objects, and the files of every MySQL migration.
use sqddl.Base.{
  Bool, true, false, not, ◌&&◌, ◌||◌, List, [], ◌∷◌, ◌++◌, Option, none, some, ◌≡◌, refl, ◌⊎◌, inl,
  inr, if◌then◌else◌, All, All-append, subst, text_eq, arith,
}
use sqddl.Cache.Build.{new_catalog_cache}
use sqddl.Cache.Slots.{ret}
use sqddl.Cache.State.{CatalogCache}
use sqddl.Catalog.{Catalog, Schema, Table, Constraint, primary_key}
use sqddl.Diff.Lookups.{find_schema, find_table, find_constraint}
use sqddl.Diff.Mysql.{
  MysqlAlterTable, MysqlMigration, MysqlKeys, start_mysql, join_zero, add_mysql_key,
  replace_mysql_pkey, place_mysql_constraint, mysql_constraint_step, is_mysql_change,
  add_mysql_alteration, with_mysql_keys, mysql_columns, mysql_new_indexes, alter_mysql_table,
  create_mysql_table, create_unless_ignored, create_or_alter, table_step, create_or_diff_schema,
  schema_step, new_mysql_migration,
}
use sqddl.Diff.Returns.{
  IfReturns, IfReturns-bind, IfReturns-bind_with, IfReturns-if, each_step-IfReturns,
}
use sqddl.Diff.Steps.{each_step, find_foreign_keys, is_key, is_fkey, only}

abbrev pub is_pkey : Constraint → Bool
is_pkey x = text_eq x.constraint_type primary_key

-- There is a primary key in the list.
abbrev pub has_pkey : List Constraint → Bool
has_pkey [] = false
has_pkey (x ∷ xs) = is_pkey x || has_pkey xs

pub has_pkey-append_left :
    (xs ys : List Constraint) → has_pkey xs ≡ true → has_pkey (xs ++ ys) ≡ true
has_pkey-append_left [] ys h = cc
has_pkey-append_left (x ∷ xs) ys h = ground (arith, has_pkey-append_left xs ys)

pub has_pkey-append_end :
    (xs : List Constraint) (x : Constraint) → is_pkey x ≡ true → has_pkey (xs ++ x ∷ []) ≡ true
has_pkey-append_end [] x h = ground arith
has_pkey-append_end (y ∷ xs) x h = ground (arith, has_pkey-append_end xs x h)

-- Constraints are dropped only where a primary key is added.
abbrev pub DropsForPkey : List Constraint → List Constraint → Type 0
DropsForPkey drops adds = (drops ≡ []) ⊎ (has_pkey adds ≡ true)

abbrev KeysKept : MysqlKeys → Type 0
KeysKept keys = DropsForPkey keys.drops keys.adds

add_mysql_key-KeysKept :
    (x : Constraint) (keys : MysqlKeys) → KeysKept keys → KeysKept (add_mysql_key x keys)
unfolding add_mysql_key
add_mysql_key-KeysKept x keys h = by_type (is_key x) (is_fkey x) h
  where
    adding : KeysKept keys → DropsForPkey keys.drops (keys.adds ++ x ∷ [])
    adding (inl e) = inl e
    adding (inr e) = inr (has_pkey-append_left keys.adds (x ∷ []) e)

    by_type :
        (a b : Bool)
        → KeysKept keys
        → KeysKept (
            if a
            then record keys { adds = keys.adds ++ x ∷ [] }
            else if b
            then record keys { fkeys = keys.fkeys ++ x ∷ [] }
            else keys)
    by_type true b h = adding h
    by_type false true h = h
    by_type false false h = h

replace_mysql_pkey-KeysKept :
    (old x : Constraint) (keys : MysqlKeys)
    → KeysKept keys
    → KeysKept (replace_mysql_pkey old x keys)
unfolding replace_mysql_pkey
replace_mysql_pkey-KeysKept old x keys h =
    by_test (is_pkey x) (not (text_eq (join_zero old.columns) (join_zero x.columns))) refl
  where
    by_test :
        (a b : Bool)
        → is_pkey x ≡ a
        → KeysKept (
            if a && b
            then record keys { drops = keys.drops ++ old ∷ []; adds = keys.adds ++ x ∷ [] }
            else keys)
    by_test true true e = inr (has_pkey-append_end keys.adds x e)
    by_test true false e = h
    by_test false b e = h

place_mysql_constraint-KeysKept :
    (x : Constraint) (keys : MysqlKeys) (o : Option Constraint)
    → KeysKept keys
    → KeysKept (place_mysql_constraint x keys o)
place_mysql_constraint-KeysKept x keys none h = add_mysql_key-KeysKept x keys h
place_mysql_constraint-KeysKept x keys (some old) h = replace_mysql_pkey-KeysKept old x keys h

-- The alteration drops no index and no column, and a constraint only for a new primary key.
abbrev pub KeepsAll : MysqlAlterTable → Type 0
KeepsAll a =
    (a.drop_indexes ≡ [])
    × (a.drop_columns ≡ [])
    × DropsForPkey a.drop_constraints a.add_constraints

-- No schema, table or foreign key is dropped.
abbrev pub OnlyAdds : MysqlMigration → Type 0
OnlyAdds m =
    (m.drop_schemas ≡ []) × (m.drop_tables ≡ []) × (m.drop_fkeys ≡ []) × All KeepsAll m.alter_tables

add_mysql_alteration-KeepsAll :
    (a : MysqlAlterTable) (done : List MysqlAlterTable)
    → KeepsAll a
    → All KeepsAll done
    → All KeepsAll (add_mysql_alteration a done)
unfolding add_mysql_alteration
add_mysql_alteration-KeepsAll a done k h = by_test (is_mysql_change a)
  where
    by_test : (b : Bool) → All KeepsAll (if b then done ++ a ∷ [] else done)
    by_test true = All-append KeepsAll done (a ∷ []) h (k, tt)
    by_test false = h

with_mysql_keys-OnlyAdds :
    (fkeys : List Constraint) (a : MysqlAlterTable) (m : MysqlMigration)
    → KeepsAll a
    → OnlyAdds m
    → OnlyAdds (with_mysql_keys [] fkeys a m)
unfolding with_mysql_keys only
with_mysql_keys-OnlyAdds fkeys a m k (schemas, tables, drops, kept) =
    (schemas, tables, rw drops refl, add_mysql_alteration-KeepsAll a m.alter_tables k kept)

module _ (src_cache dest_cache : CatalogCache) where
  mysql_constraint_step-KeysKept :
      (src : Table) (x : Constraint) (keys : MysqlKeys)
      → KeysKept keys
      → IfReturns KeysKept (mysql_constraint_step src_cache dest_cache false src x keys)
  unfolding mysql_constraint_step
  mysql_constraint_step-KeysKept src x keys h = IfReturns-if KeysKept x.ignore _ _ h (
      IfReturns-bind KeysKept (find_constraint src_cache src x.constraint_name) _
        (λ found. place_mysql_constraint-KeysKept x keys found h))

  alter_mysql_table-OnlyAdds :
      (src dest : Table) (m : MysqlMigration)
      → OnlyAdds m
      → IfReturns OnlyAdds (alter_mysql_table src_cache dest_cache false src dest m)
  unfolding alter_mysql_table only
  alter_mysql_table-OnlyAdds src dest m (schemas, tables, fkeys, kept) =
      IfReturns-bind OnlyAdds (mysql_columns src_cache dest_cache false src dest m) _ (λ columns.
        IfReturns-bind OnlyAdds (mysql_new_indexes src_cache dest_cache false src dest) _
          (λ created.
            IfReturns-bind_with OnlyAdds KeysKept
              (each_step (mysql_constraint_step src_cache dest_cache false src) dest.constraints
                (record { drops = []; adds = []; fkeys = [] }))
              _
              (each_step-IfReturns KeysKept _ (mysql_constraint_step-KeysKept src) dest.constraints
                (record { drops = []; adds = []; fkeys = [] }) (inl refl))
              (λ keys h.
                with_mysql_keys-OnlyAdds keys.fkeys _ m (refl, refl, h)
                  (schemas, tables, fkeys, kept))))

  create_mysql_table-OnlyAdds :
      (t : Table) (m : MysqlMigration)
      → OnlyAdds m
      → IfReturns OnlyAdds (create_mysql_table src_cache dest_cache false t m)
  unfolding create_mysql_table
  create_mysql_table-OnlyAdds t m h =
      IfReturns-bind OnlyAdds (find_foreign_keys dest_cache t) _ (λ fkeys. h)

  create_or_alter-OnlyAdds :
      (t : Table) (m : MysqlMigration) (o : Option Table)
      → OnlyAdds m
      → IfReturns OnlyAdds (create_or_alter src_cache dest_cache false t m o)
  unfolding create_or_alter
  create_or_alter-OnlyAdds t m none h = create_mysql_table-OnlyAdds t m h
  create_or_alter-OnlyAdds t m (some old) h = alter_mysql_table-OnlyAdds old t m h

  table_step-OnlyAdds :
      (src : Schema) (t : Table) (m : MysqlMigration)
      → OnlyAdds m
      → IfReturns OnlyAdds (table_step src_cache dest_cache false src t m)
  unfolding table_step
  table_step-OnlyAdds src t m h = IfReturns-if OnlyAdds t.ignore _ _ h (
      IfReturns-bind OnlyAdds (find_table src_cache src t.table_name) _
        (λ found. create_or_alter-OnlyAdds t m found h))

  create_unless_ignored-OnlyAdds :
      (t : Table) (m : MysqlMigration)
      → OnlyAdds m
      → IfReturns OnlyAdds (create_unless_ignored src_cache dest_cache false t m)
  unfolding create_unless_ignored
  create_unless_ignored-OnlyAdds t m h =
      IfReturns-if OnlyAdds t.ignore _ _ h (create_mysql_table-OnlyAdds t m h)

  create_or_diff_schema-OnlyAdds :
      (dest : Schema) (m : MysqlMigration) (o : Option Schema)
      → OnlyAdds m
      → IfReturns OnlyAdds (create_or_diff_schema src_cache dest_cache false dest m o)
  unfolding create_or_diff_schema
  create_or_diff_schema-OnlyAdds dest m none h =
      each_step-IfReturns OnlyAdds _ create_unless_ignored-OnlyAdds dest.tables _ h
  create_or_diff_schema-OnlyAdds dest m (some src) h =
      each_step-IfReturns OnlyAdds _ (table_step-OnlyAdds src) dest.tables m h

  schema_step-OnlyAdds :
      (src : Catalog) (dest : Schema) (m : MysqlMigration)
      → OnlyAdds m
      → IfReturns OnlyAdds (schema_step src_cache dest_cache false src dest m)
  unfolding schema_step
  schema_step-OnlyAdds src dest m h = IfReturns-if OnlyAdds dest.ignore _ _ h (
      IfReturns-bind OnlyAdds (find_schema src_cache src dest.schema_name) _
        (λ found. create_or_diff_schema-OnlyAdds dest m found h))

-- A migration that newMySQLMigration returns when objects may not be dropped drops no schema, table,
-- foreign key, index or column, and drops constraints of a table only if it adds a primary key to it.
pub new_mysql_migration-additive :
    (src dest : Catalog) (m : MysqlMigration)
    → new_mysql_migration src dest false ≡ ret m
    → OnlyAdds m
unfolding new_mysql_migration
new_mysql_migration-additive src dest m e = subst (IfReturns OnlyAdds) e (
    each_step-IfReturns OnlyAdds _
      (schema_step-OnlyAdds (new_catalog_cache src) (new_catalog_cache dest) src) dest.schemas
      (start_mysql src) (refl, refl, refl, tt))
