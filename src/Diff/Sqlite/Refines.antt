-- ===== src/Diff/Sqlite/Refines.antt =====
-- newSQLiteMigration returns the migration that Reference says.
use sqddl.Base.{
  ℕ, zero, suc, Bool, true, false, List, [], ◌∷◌, Option, none, some, ◌≡◌, refl, ap, map, get_elem?,
  All, Bool-cases, inl, inr,
}
use sqddl.Cache.Build.WellFormed.{IsWellFormed, Agrees, AgreesOnTable, new_catalog_cache-Agrees}
use sqddl.Cache.Constraints.{constraint_ignored, constraint_name}
use sqddl.Cache.Schemas.{table_ignored, table_name}
use sqddl.Cache.Slots.{ret}
use sqddl.Cache.Slots.Named.{live_named_found}
use sqddl.Cache.State.{CatalogCache}
use sqddl.Cache.Tables.{column_ignored, column_name, index_ignored, index_name}
use sqddl.Catalog.{Catalog, Schema, Table}
use sqddl.Diff.Reference.{
  table_named, missing_is, compared_is, find_table-named, find_column-named, find_constraint-named,
  find_index-named,
}
use sqddl.Diff.Sqlite.{
  SqliteAlterTable, named_schema, named_catalog, is_passed_over, sqlite_columns_differ,
  diff_sqlite_table, place_table, diff_sqlite_tables, dropped_tables, diff_sqlite_schemas,
  sqlite_migration_of, new_sqlite_migration,
}
use sqddl.Diff.Sqlite.Reference.{
  sqlite_alteration, put_placed, placed_tables, lost_tables, sqlite_difference, difference_of,
  reference_migration,
}

diff_sqlite_table_is :
    (src_cache dest_cache : CatalogCache) (src dest : Table)
    → AgreesOnTable src_cache src
    → AgreesOnTable dest_cache dest
    → diff_sqlite_table src_cache dest_cache src dest ≡ ret (sqlite_alteration src dest)
unfolding diff_sqlite_table
diff_sqlite_table_is src_cache dest_cache src dest a b =
    rw
      (
        missing_is constraint_ignored _ _
            (λ x. find_constraint-named dest_cache dest (constraint_name x) b) src.constraints,
        missing_is index_ignored _ _ (λ x. find_index-named dest_cache dest (index_name x) b)
            src.indexes,
        missing_is column_ignored _ _ (λ x. find_column-named dest_cache dest (column_name x) b)
            src.columns,
        compared_is column_ignored _ _ sqlite_columns_differ
            (λ x. find_column-named src_cache src (column_name x) a) dest.columns,
        missing_is index_ignored _ _ (λ x. find_index-named src_cache src (index_name x) a)
            dest.indexes,
        missing_is constraint_ignored _ _
            (λ x. find_constraint-named src_cache src (constraint_name x) a) dest.constraints,
      )
      refl

module _ (src_cache dest_cache : CatalogCache) (src : Schema) (drop_objects : Bool)
    (agrees : Agrees src_cache src) where
  place_table_is :
      (t : Table) (rest : List Table × List SqliteAlterTable) (o : Option Table)
      → AgreesOnTable dest_cache t
      → table_named src t.table_name ≡ o
      → place_table src_cache dest_cache src drop_objects t rest o
        ≡ ret (put_placed src drop_objects t rest o)
  unfolding place_table
  place_table_is t rest none b e = refl
  place_table_is t rest (some old) b e =
      let (i, here, live, named) =
        live_named_found table_ignored table_name t.table_name src.tables old e in
      rw (diff_sqlite_table_is src_cache dest_cache old t (agrees.on_table i old here) b) refl

  diff_sqlite_tables_is :
      (ts : List Table)
      → All (AgreesOnTable dest_cache) ts
      → diff_sqlite_tables src_cache dest_cache src drop_objects ts
        ≡ ret (placed_tables src drop_objects ts)
  unfolding diff_sqlite_tables placed_tables
  diff_sqlite_tables_is [] h = refl
  diff_sqlite_tables_is (t ∷ ts) (b, h) =
      let rest = diff_sqlite_tables_is ts h in
      let found = find_table-named src_cache src t.table_name agrees in
      elim (Bool-cases (is_passed_over t)) [
        | inl skip ↦ rw skip rest
        | inr here ↦
            rw (here, found, rest)
              (place_table_is t (placed_tables src drop_objects ts) (table_named src t.table_name) b
                refl)
      ]

dropped_tables_is :
    (dest_cache : CatalogCache) (src dest : Schema) (drop_objects : Bool)
    → Agrees dest_cache dest
    → dropped_tables dest_cache src dest drop_objects ≡ ret (lost_tables src dest drop_objects)
unfolding dropped_tables
dropped_tables_is dest_cache src dest false b = refl
dropped_tables_is dest_cache src dest true b =
    missing_is is_passed_over _ _ (λ t. find_table-named dest_cache dest t.table_name b) src.tables

All-of_positions {ℓ κ} :
    {A : Type ℓ} (P : A → Type κ) (xs : List A)
    → ((i : ℕ) (a : A) → get_elem? xs i ≡ some a → P a)
    → All P xs
All-of_positions P [] h = tt
All-of_positions P (x ∷ xs) h = (h zero x refl, All-of_positions P xs (λ i a e. h (suc i) a e))

diff_sqlite_schemas_is :
    (src_cache dest_cache : CatalogCache) (src dest : Schema) (drop_objects : Bool)
    → Agrees src_cache src
    → Agrees dest_cache dest
    → diff_sqlite_schemas src_cache dest_cache src dest drop_objects
      ≡ ret (sqlite_difference src dest drop_objects)
unfolding diff_sqlite_schemas
diff_sqlite_schemas_is src_cache dest_cache src dest drop_objects a b =
    rw
      (
        dropped_tables_is dest_cache src dest drop_objects b,
        diff_sqlite_tables_is src_cache dest_cache src drop_objects a dest.tables
            (All-of_positions _ dest.tables b.on_table),
      )
      refl

migration_by :
    (src dest : Catalog) (drop_objects : Bool) (ss ds : List Schema)
    → src.schemas ≡ ss
    → dest.schemas ≡ ds
    → IsWellFormed (named_catalog src)
    → IsWellFormed (named_catalog dest)
    → sqlite_migration_of src dest drop_objects ss ds ≡ ret (difference_of drop_objects ss ds)
unfolding sqlite_migration_of difference_of named_catalog
migration_by src dest drop_objects [] [] p q v w = refl
migration_by src dest drop_objects (s ∷ ss) [] p q v w = refl
migration_by src dest drop_objects [] (d ∷ ds) p q v w = refl
migration_by src dest drop_objects (s ∷ ss) (d ∷ ds) p q v w =
    diff_sqlite_schemas_is _ _ (named_schema s) (named_schema d) drop_objects
      (new_catalog_cache-Agrees (named_catalog src) 0 (named_schema s) v
        (ap (λ l. get_elem? (map named_schema l) 0) p))
      (new_catalog_cache-Agrees (named_catalog dest) 0 (named_schema d) w
        (ap (λ l. get_elem? (map named_schema l) 0) q))

pub new_sqlite_migration-reference_migration :
    (src dest : Catalog) (drop_objects : Bool)
    → IsWellFormed (named_catalog src)
    → IsWellFormed (named_catalog dest)
    → new_sqlite_migration src dest drop_objects ≡ ret (reference_migration src dest drop_objects)
unfolding new_sqlite_migration reference_migration
new_sqlite_migration-reference_migration src dest drop_objects v w =
    migration_by src dest drop_objects src.schemas dest.schemas refl refl v w
