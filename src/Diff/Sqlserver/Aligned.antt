-- ===== src/Diff/Sqlserver/Aligned.antt =====
-- The sql method of sqlserver_migration.go: each file has its buffer.
use sqddl.Base.{List, [], ◌∷◌, ◌≡◌, refl, subst, length, All, Bytes}
use sqddl.Cache.Slots.{Outcome, ret, ◌>>=◌}
use sqddl.Catalog.{Schema, Constraint, Index, dialect_sqlserver}
use sqddl.Diff.Aligned.{IsAligned, next-IsAligned, each_file-IsAligned, if-IsAligned}
use sqddl.Diff.Files.{MigrationFiles, Output, no_output}
use sqddl.Diff.Returns.{IfReturns, IfReturns-bind, IfReturns-bind_with, each_step-IfReturns}
use sqddl.Diff.Sqlserver.{SqlserverAlterTable, SqlserverMigration}
use sqddl.Diff.Sqlserver.Sql
use sqddl.Diff.Sqlserver.Changes.{alter_sqlserver_column}
use sqddl.Diff.Steps.{each_step}
use sqddl.Diff.Usable.{types_differ-Returns}
use sqddl.Diff.Written.{HasTypedEnds, HasKeys}
use sqddl.Diff.Yields.{Returns, Returns-bind, Returns-ret, each_step-Returns}

abbrev pub AreTypedInSqlserver : List SqlserverAlterTable → Type 0
AreTypedInSqlserver = All (λ a. All (HasTypedEnds dialect_sqlserver) a.alter_columns)

module _ (m : SqlserverMigration) (prefix : Bytes) where
  fkeys_step-IsAligned :
      (action : Bytes) (block : Constraint → Bytes → Bytes) (fkeys : List Constraint) (o : Output)
      → IsAligned o
      → IfReturns IsAligned (Sql.fkeys_step m prefix action block fkeys o)
  unfolding Sql.fkeys_step
  fkeys_step-IsAligned action block [] o h = tt
  fkeys_step-IsAligned action block (fk ∷ fkeys) o h = next-IsAligned prefix _ _ o h

  drop_schema_file-IsAligned :
      (s : Schema) (o : Output) → IsAligned o → IsAligned (Sql.drop_schema_file m prefix s o)
  unfolding Sql.drop_schema_file
  drop_schema_file-IsAligned s o h = next-IsAligned prefix _ _ o h

  create_schemas_file-IsAligned :
      (o : Output) → IsAligned o → IsAligned (Sql.create_schemas_file m prefix o)
  unfolding Sql.create_schemas_file
  create_schemas_file-IsAligned o h = if-IsAligned _ _ o (next-IsAligned prefix _ _ o h) h

  table_files-IsAligned : (o : Output) → IsAligned o → IsAligned (Sql.table_files m prefix o)
  unfolding Sql.table_files
  table_files-IsAligned o h = if-IsAligned _ _ o (next-IsAligned prefix _ _ o h) h

  create_index_file-IsAligned :
      (x : Index) (o : Output) → IsAligned o → IsAligned (Sql.create_index_file m prefix x o)
  unfolding Sql.create_index_file
  create_index_file-IsAligned x o h = next-IsAligned prefix _ _ o h

  add_constraint_file-IsAligned :
      (table : Bytes) (x : Constraint) (o : Output)
      → IsAligned o
      → IsAligned (Sql.add_constraint_file m prefix table x o)
  unfolding Sql.add_constraint_file
  add_constraint_file-IsAligned table x o h = next-IsAligned prefix _ _ o h

  alter_file-IsAligned :
      (table : Bytes) (a : SqlserverAlterTable) (o : Output) (w : Bytes × List Bytes)
      → IsAligned o
      → IsAligned (Sql.alter_file m prefix table a o w)
  unfolding Sql.alter_file
  alter_file-IsAligned table a o w h =
      let written = next-IsAligned prefix _ _ o h in
      each_file-IsAligned (Sql.add_constraint_file m prefix table)
        (add_constraint_file-IsAligned table) a.add_constraints _
        (each_file-IsAligned (Sql.create_index_file m prefix) create_index_file-IsAligned
          a.create_indexes _ (record { same_length = written.same_length }))

  alter_step-IsAligned :
      (a : SqlserverAlterTable) (o : Output)
      → IsAligned o
      → IfReturns IsAligned (Sql.alter_step m prefix a o)
  unfolding Sql.alter_step
  alter_step-IsAligned a o h =
      IfReturns-bind IsAligned (each_step _ a.alter_columns _) _
        (λ w. alter_file-IsAligned _ a o w h)

  abbrev HasBuffers : MigrationFiles → Type 0
  HasBuffers f = length f.filenames ≡ length f.bufs

  sqlserver_sql-IsAligned :
      (files : MigrationFiles)
      → Sql.sqlserver_sql m prefix ≡ ret files
      → length files.filenames ≡ length files.bufs
  unfolding Sql.sqlserver_sql
  sqlserver_sql-IsAligned files e = subst (IfReturns HasBuffers) e (
      after (each_step _ m.drop_fkeys.groups (no_output m.warnings)) _
        (each_step-IfReturns IsAligned _ (fkeys_step-IsAligned _ _) m.drop_fkeys.groups _
          (record { same_length = refl }))
        (λ dropped h.
          after (each_step (Sql.alter_step m prefix) m.alter_tables _) _
            (each_step-IfReturns IsAligned _ alter_step-IsAligned m.alter_tables _ (
              table_files-IsAligned _ (
                create_schemas_file-IsAligned _ (
                  each_file-IsAligned (Sql.drop_schema_file m prefix) drop_schema_file-IsAligned
                    m.drop_schemas dropped h))))
            (λ altered h.
              after (each_step _ m.add_fast_fkeys.groups altered) _
                (each_step-IfReturns IsAligned _ (fkeys_step-IsAligned _ _) m.add_fast_fkeys.groups
                  altered h)
                (λ fast h.
                  after (each_step _ m.add_fkeys.groups fast) _
                    (each_step-IfReturns IsAligned _ (fkeys_step-IsAligned _ _) m.add_fkeys.groups
                      fast h)
                    (λ added h. h.same_length)))))
    where
      after :
          (o : Outcome Output) (f : Output → Outcome MigrationFiles)
          → IfReturns IsAligned o
          → ((o : Output) → IsAligned o → IfReturns HasBuffers (f o))
          → IfReturns HasBuffers (o >>= f)
      after o f h then' = IfReturns-bind_with _ IsAligned o f h then'

  fkeys_step-Returns :
      (action : Bytes) (block : Constraint → Bytes → Bytes) (fkeys : List Constraint) (o : Output)
      → HasKeys fkeys
      → Returns (Sql.fkeys_step m prefix action block fkeys o)
  unfolding Sql.fkeys_step
  fkeys_step-Returns action block [] o h = absurd h
  fkeys_step-Returns action block (fk ∷ fkeys) o h = Returns-ret _

  alter_step-Returns :
      (a : SqlserverAlterTable) (o : Output)
      → All (HasTypedEnds dialect_sqlserver) a.alter_columns
      → Returns (Sql.alter_step m prefix a o)
  unfolding Sql.alter_step alter_sqlserver_column
  alter_step-Returns a o h =
      Returns-bind _ _
        (each_step-Returns (HasTypedEnds dialect_sqlserver) _
          (λ c w (from, to).
            Returns-bind _ _ (types_differ-Returns dialect_sqlserver c.0 c.1 from to)
              (λ retyped. Returns-ret _))
          a.alter_columns h _)
        (λ w. Returns-ret _)

  -- The sql method of SQL Server returns, and does not panic, with as many buffers as file names, if
  -- normalizeColumnType panics on no type of a column that is altered and no group of foreign keys
  -- is empty.
  pub sqlserver_sql-Returns :
      AreTypedInSqlserver m.alter_tables
      → All HasKeys m.drop_fkeys.groups
      → All HasKeys m.add_fast_fkeys.groups
      → All HasKeys m.add_fkeys.groups
      → (files : MigrationFiles) × (Sql.sqlserver_sql m prefix ≡ ret files)
        × (length files.filenames ≡ length files.bufs)
  unfolding Sql.sqlserver_sql
  sqlserver_sql-Returns typed drops fast adds =
      let returned : Returns (Sql.sqlserver_sql m prefix) =
        Returns-bind _ _
          (each_step-Returns HasKeys _ (fkeys_step-Returns _ _) m.drop_fkeys.groups drops _)
          (λ dropped.
            Returns-bind _ _
              (each_step-Returns
                (λ (a : SqlserverAlterTable). All (HasTypedEnds dialect_sqlserver) a.alter_columns)
                (Sql.alter_step m prefix) alter_step-Returns m.alter_tables typed _)
              (λ altered.
                Returns-bind _ _
                  (each_step-Returns HasKeys _ (fkeys_step-Returns _ _) m.add_fast_fkeys.groups fast
                    _)
                  (λ early.
                    Returns-bind _ _
                      (each_step-Returns HasKeys _ (fkeys_step-Returns _ _) m.add_fkeys.groups adds
                        _)
                      (λ added. Returns-ret _)))) in
      (returned.result, returned.returns, sqlserver_sql-IsAligned returned.result returned.returns)
