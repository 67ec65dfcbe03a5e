-- ===== src/Diff/Postgres/Same.antt =====
-- The Postgres migration from a catalog to itself.
use sqddl.Base.{Bool, true, false, [], some, ◌≡◌, refl, ap}
use sqddl.Cache.Build.{new_catalog_cache}
use sqddl.Cache.Build.WellFormed.{IsWellFormed, AgreesOnTable}
use sqddl.Cache.Constraints.{constraint_ignored}
use sqddl.Cache.Slots.{ret}
use sqddl.Cache.State.{CatalogCache}
use sqddl.Cache.Tables.{column_ignored, index_ignored}
use sqddl.Catalog.{Catalog, Schema, Table, Constraint, dialect_postgres}
use sqddl.Diff.Found.{FindsTable, tables_found, FindsSchema, schemas_found}
use sqddl.Diff.Postgres.{
  PostgresMigration, PostgresKeys, start_postgres, alter_postgres_key, postgres_constraint_step,
  is_postgres_change, add_postgres_alteration, with_postgres_keys, alter_postgres_table,
  replaced_pkey, not_null_columns, drop_table_step, create_or_alter, drop_unless_found, table_step,
  create_or_diff_schema, schema_step, drop_schema_unless_found, drop_schema_step,
  new_postgres_migration,
}
use sqddl.Diff.Reference.{
  constraint_named, find_column-named, find_constraint-named, find_index-named,
}
use sqddl.Diff.Self.{
  columns-FindsSelf, constraints-FindsSelf, indexes-FindsSelf, missing_self, compared_self,
  each_step_self, skipping_self, step_if_self, All-map, columns_differ_self, flags_differ_self,
  All_of_FindsSelf,
}
use sqddl.Diff.Steps.{each_step, only}
use sqddl.Diff.Usable.{HasTypes, IsUsable, IsUsableSchema}

alter_postgres_key_self :
    (x : Constraint) (keys : PostgresKeys) → alter_postgres_key x x keys ≡ keys
unfolding alter_postgres_key
alter_postgres_key_self x keys =
    rw (flags_differ_self x.is_deferrable, flags_differ_self x.is_initially_deferred) refl

module _ (cache : CatalogCache) (drop_objects : Bool) where
  postgres_constraint_step_self :
      (t : Table)
      → AgreesOnTable cache t
      → (keys : PostgresKeys) (x : Constraint)
      → (constraint_ignored x ≡ false → constraint_named t x.constraint_name ≡ some x)
      → postgres_constraint_step cache cache drop_objects t x keys ≡ ret keys
  unfolding postgres_constraint_step
  postgres_constraint_step_self t a keys x h = skipping_self x.ignore _ keys (λ live.
      rw (find_constraint-named cache t x.constraint_name a, h live)
        (ap ret (alter_postgres_key_self x keys)))

  alter_postgres_table_self :
      (t : Table) (m : PostgresMigration)
      → IsUsable dialect_postgres cache t
      → alter_postgres_table cache cache drop_objects t t m ≡ ret m
  unfolding alter_postgres_table with_postgres_keys add_postgres_alteration is_postgres_change only
      each_step replaced_pkey not_null_columns
  alter_postgres_table_self t m u =
      let a = u.agrees in
      rw
        (
          missing_self constraint_ignored _ _
              (λ x. find_constraint-named cache t x.constraint_name a) drop_objects t.constraints
              (constraints-FindsSelf cache t a),
          missing_self index_ignored _ _ (λ x. find_index-named cache t x.index_name a) drop_objects
              t.indexes (indexes-FindsSelf cache t a),
          missing_self column_ignored _ _ (λ x. find_column-named cache t x.column_name a)
              drop_objects t.columns (columns-FindsSelf cache t a),
          compared_self column_ignored _ _ (λ x. find_column-named cache t x.column_name a) _
              t.columns
              (All-map (λ x. columns_differ_self dialect_postgres m.default_collation x) t.columns
                u.types)
              (columns-FindsSelf cache t a),
          missing_self index_ignored _ _ (λ x. find_index-named cache t x.index_name a) true
              t.indexes (indexes-FindsSelf cache t a),
          each_step_self (postgres_constraint_step cache cache drop_objects t) t.constraints
              (record { adds = []; alters = []; fkeys = m.add_fkeys; adding_primary_key = false })
              (All_of_FindsSelf constraint_ignored _ _ (postgres_constraint_step_self t a _)
                t.constraints (constraints-FindsSelf cache t a)),
        )
        refl

  module _ (s : Schema) (u : IsUsableSchema dialect_postgres cache s) where
    table_step_self :
        (m : PostgresMigration) (t : Table)
        → FindsTable dialect_postgres cache s t
        → table_step cache cache drop_objects s t m ≡ ret m
    unfolding table_step create_or_alter
    table_step_self m t f =
        skipping_self t.ignore _ m
          (λ live. rw (f.finds live) (alter_postgres_table_self t m f.usable))

    drop_table_step_self :
        (m : PostgresMigration) (t : Table)
        → FindsTable dialect_postgres cache s t
        → drop_table_step cache cache drop_objects s t m ≡ ret m
    unfolding drop_table_step drop_unless_found
    drop_table_step_self m t f = skipping_self t.ignore _ m (λ live. rw (f.finds live) refl)

    diff_schema_self :
        (m : PostgresMigration)
        → create_or_diff_schema cache cache drop_objects s m (some s) ≡ ret m
    unfolding create_or_diff_schema
    diff_schema_self m =
        rw
          (step_if_self drop_objects
            (each_step (drop_table_step cache cache drop_objects s) s.tables) m
            (each_step_self _ s.tables m (
              All-map (drop_table_step_self m) s.tables (tables_found dialect_postgres cache s u))))
          (each_step_self _ s.tables m
            (All-map (table_step_self m) s.tables (tables_found dialect_postgres cache s u)))

module _ (catalog : Catalog) (drop_objects : Bool) where
  abbrev own_cache : CatalogCache
  own_cache = new_catalog_cache catalog

  schema_step_self :
      (m : PostgresMigration) (s : Schema)
      → FindsSchema dialect_postgres catalog s
      → schema_step own_cache own_cache drop_objects catalog s m ≡ ret m
  unfolding schema_step
  schema_step_self m s f =
      skipping_self s.ignore _ m
        (λ live. rw (f.finds live) (diff_schema_self own_cache drop_objects s f.usable m))

  drop_schema_step_self :
      (m : PostgresMigration) (s : Schema)
      → FindsSchema dialect_postgres catalog s
      → drop_schema_step own_cache own_cache drop_objects catalog s m ≡ ret m
  unfolding drop_schema_step drop_schema_unless_found
  drop_schema_step_self m s f = skipping_self s.ignore _ m (λ live. rw (f.finds live) refl)

-- The Postgres migration from a catalog to itself is empty, whether or not objects may be dropped, if
-- normalizeColumnType panics on none of its types. The catalog must
-- have distinct names of schemas, of the tables and views together within a
-- schema, and of the columns, of the constraints and of the indexes of each table; a name in every
-- constraint; and in every table the name of its schema.
pub new_postgres_migration-same :
    (catalog : Catalog) (drop_objects : Bool)
    → IsWellFormed catalog
    → HasTypes dialect_postgres catalog
    → new_postgres_migration catalog catalog drop_objects ≡ ret (start_postgres catalog)
unfolding new_postgres_migration
new_postgres_migration-same catalog drop_objects w types =
    let m = start_postgres catalog in
    let found = schemas_found dialect_postgres catalog w types in
    rw
      (step_if_self drop_objects _ m (
        each_step_self _ catalog.schemas m
          (All-map (drop_schema_step_self catalog drop_objects m) catalog.schemas found)))
      (each_step_self _ catalog.schemas m
        (All-map (schema_step_self catalog drop_objects m) catalog.schemas found))
