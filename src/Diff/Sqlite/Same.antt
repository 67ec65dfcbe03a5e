-- ===== src/Diff/Sqlite/Same.antt =====
-- The migration from a catalog to itself.
use sqddl.Base.{
  ℕ, zero, suc, Bool, true, false, not, List, [], ◌∷◌, Option, some, ◌≡◌, refl, ap, ◌∙◌,
  if◌then◌else◌, map, get_elem?, Bool-cases, inl, inr, text_eq_refl, arith,
}
use sqddl.Cache.Build.WellFormed.{IsWellFormed, Agrees, AgreesOnTable, new_catalog_cache-Agrees}
use sqddl.Cache.Constraints.{constraint_ignored}
use sqddl.Cache.Instances.{table_distinct}
use sqddl.Cache.Schemas.{table_ignored, table_name, table_key}
use sqddl.Cache.Slots.{ret}
use sqddl.Cache.Slots.Named.{live_named_self}
use sqddl.Cache.State.{CatalogCache}
use sqddl.Cache.Tables.{column_ignored, index_ignored}
use sqddl.Catalog.{Catalog, Schema, Table, Column, dialect_sqlite}
use sqddl.Helpers.ColumnTypes.{normalize_column_default}
use sqddl.Diff.Reference.{table_named, sorted_out}
use sqddl.Diff.Self.{
  FindsSelf, FindsSelf-of, unfound_self, columns-FindsSelf, constraints-FindsSelf,
  indexes-FindsSelf,
}
use sqddl.Diff.Sqlite.{
  SqliteAlterTable, no_migration, named_schema, named_catalog, is_passed_over,
  sqlite_columns_differ, is_worth_altering, add_alteration, new_sqlite_migration,
}
use sqddl.Diff.Sqlite.Reference.{
  sqlite_alteration, placed_tables, lost_tables, sqlite_difference, difference_of,
  reference_migration,
}
use sqddl.Diff.Sqlite.Refines.{new_sqlite_migration-reference_migration}

sorted_out_self :
    {A : Type 0} (skip : A → Bool) (find : A → Option A) (differ : A → A → Bool) (xs : List A)
    → ((x : A) → differ x x ≡ false)
    → FindsSelf skip find xs
    → sorted_out skip find differ xs ≡ ([], [])
unfolding sorted_out
sorted_out_self skip find differ [] same h = refl
sorted_out_self skip find differ (x ∷ xs) same (p, h) = elim (Bool-cases (skip x)) [
  | inl out ↦ rw out (sorted_out_self skip find differ xs same h)
  | inr here ↦ rw (here, p here, same x) (sorted_out_self skip find differ xs same h)
]

sqlite_columns_differ_self : (x : Column) → sqlite_columns_differ x x ≡ false
unfolding sqlite_columns_differ
sqlite_columns_differ_self x =
    rw
      (
        text_eq_refl x.column_type,
        text_eq_refl (normalize_column_default dialect_sqlite x.column_default),
      )
      (by_flag x.is_not_null)
  where
    by_flag : (b : Bool) → (if b then not b else b) ≡ false
    by_flag true = refl
    by_flag false = refl

module _ (cache : CatalogCache) (t : Table) (a : AgreesOnTable cache t) where
  -- A table does not differ from itself.
  unaltered : is_worth_altering (sqlite_alteration t t) ≡ false
  unfolding is_worth_altering
  unaltered =
      rw
        (
          unfound_self constraint_ignored _ t.constraints (constraints-FindsSelf cache t a),
          unfound_self index_ignored _ t.indexes (indexes-FindsSelf cache t a),
          sorted_out_self column_ignored _ sqlite_columns_differ t.columns
              sqlite_columns_differ_self (columns-FindsSelf cache t a),
        )
        refl

  add_alteration_self :
      (drop_objects : Bool) (rest : List SqliteAlterTable)
      → add_alteration drop_objects (sqlite_alteration t t) rest ≡ rest
  unfolding add_alteration
  add_alteration_self drop_objects rest = rw unaltered refl

ignored_of : (t : Table) → is_passed_over t ≡ false → table_ignored t ≡ false
ignored_of t h = ground arith

module _ (cache : CatalogCache) (s : Schema) (drop_objects : Bool) (a : Agrees cache s) where
  finds_table :
      (i : ℕ) (t : Table)
      → get_elem? s.tables i ≡ some t
      → is_passed_over t ≡ false
      → table_named s t.table_name ≡ some t
  finds_table i t here live =
      live_named_self table_ignored table_name (table_key s) (table_distinct s) _ i t a.tables here
        (ignored_of t live)

  placed_tables_self :
      (ts : List Table)
      → ((i : ℕ) (t : Table)
          → get_elem? ts i ≡ some t
          → is_passed_over t ≡ false
          → (table_named s t.table_name ≡ some t) × AgreesOnTable cache t)
      → placed_tables s drop_objects ts ≡ ([], [])
  unfolding placed_tables
  placed_tables_self [] h = refl
  placed_tables_self (t ∷ ts) h =
      let rest = placed_tables_self ts (λ i u e. h (suc i) u e) in
      elim (Bool-cases (is_passed_over t)) [
        | inl skip ↦ rw skip rest
        | inr here ↦
            let (found, agrees) = h zero t refl here in
            rw (here, found, rest, add_alteration_self cache t agrees drop_objects []) refl
      ]

  lost_tables_self : (b : Bool) → lost_tables s s b ≡ []
  lost_tables_self false = refl
  lost_tables_self true =
      unfound_self is_passed_over _ s.tables (FindsSelf-of _ _ s.tables finds_table)

  difference_self : sqlite_difference s s drop_objects ≡ no_migration
  difference_self =
      rw
        (
          lost_tables_self drop_objects,
          placed_tables_self s.tables (λ i t e live. (finds_table i t e live, a.on_table i t e)),
        )
        refl

reference_self :
    (catalog : Catalog) (drop_objects : Bool) (ss : List Schema)
    → catalog.schemas ≡ ss
    → IsWellFormed (named_catalog catalog)
    → difference_of drop_objects ss ss ≡ no_migration
unfolding difference_of named_catalog
reference_self catalog drop_objects [] e w = refl
reference_self catalog drop_objects (s ∷ ss) e w = difference_self _ (named_schema s) drop_objects (
    new_catalog_cache-Agrees (named_catalog catalog) 0 (named_schema s) w
      (ap (λ l. get_elem? (map named_schema l) 0) e))

-- The SQLite migration from a catalog to itself is empty, whether or not objects may be dropped. The
-- catalog must have, once the constraints have their generated names, distinct names of schemas, of the tables and views together within a
-- schema, and of the columns, of the constraints and of the indexes of each table; a name in every
-- constraint; and in every table the name of its schema.
pub new_sqlite_migration-same :
    (catalog : Catalog) (drop_objects : Bool)
    → IsWellFormed (named_catalog catalog)
    → new_sqlite_migration catalog catalog drop_objects ≡ ret no_migration
unfolding reference_migration
new_sqlite_migration-same catalog drop_objects w =
    new_sqlite_migration-reference_migration catalog catalog drop_objects w w
    ∙ ap ret (reference_self catalog drop_objects catalog.schemas refl w)
