-- ===== src/Diff/Aligned.antt =====
-- The sql methods of MySQL and Postgres: each file has its buffer.
use sqddl.Base.{
  Bool, true, false, List, [], ◌∷◌, ◌≡◌, refl, if◌then◌else◌, subst, length, length-append, arith,
  Bytes,
}
use sqddl.Cache.Slots.{Outcome, ret, ◌>>=◌}
use sqddl.Catalog.{Column, Constraint, Index, dialect_mysql}
use sqddl.Diff.Files.{
  MigrationFiles, Output, no_output, bump, put_name, put_buf, numbered, each_file,
}
use sqddl.Diff.Mysql.{MysqlAlterTable, MysqlMigration}
use sqddl.Diff.Mysql.Sql
use sqddl.Diff.Postgres.{PostgresAlterTable, PostgresMigration}
use sqddl.Diff.Postgres.Sql as Pg
use sqddl.Diff.Returns.{IfReturns, IfReturns-bind, IfReturns-bind_with, each_step-IfReturns}
use sqddl.Diff.Steps.{each_step}
use sqddl.Helpers.ColumnTypes.{normalize_column_type}

-- As many buffers as names.
pub record IsAligned (o : Output) : Type 0 where
  pub same_length : length o.filenames ≡ length o.bufs

put_name-put_buf-IsAligned :
    (prefix name text : Bytes) (o : Output)
    → IsAligned o
    → IsAligned (put_buf text (put_name prefix name o))
unfolding put_name put_buf
put_name-put_buf-IsAligned prefix name text o h = record {
  same_length = omega (
    arith,
    length-append o.filenames (numbered prefix o.n name ∷ []),
    length-append o.bufs (text ∷ []),
    h.same_length,
  );
}

pub next-IsAligned :
    (prefix name text : Bytes) (o : Output)
    → IsAligned o
    → IsAligned (put_buf text (put_name prefix name (bump o)))
next-IsAligned prefix name text o h =
    put_name-put_buf-IsAligned prefix name text (bump o) (record { same_length = h.same_length })

pub each_file-IsAligned {ℓ} :
    {A : Type ℓ} (file : A → Output → Output)
    → ((x : A) (o : Output) → IsAligned o → IsAligned (file x o))
    → (xs : List A) (o : Output) → IsAligned o
    → IsAligned (each_file file xs o)
unfolding each_file
each_file-IsAligned file keep [] o h = h
each_file-IsAligned file keep (x ∷ xs) o h =
    each_file-IsAligned file keep xs (file x o) (keep x o h)

pub if-IsAligned :
    (b : Bool) (o p : Output) → IsAligned o → IsAligned p → IsAligned (if b then o else p)
if-IsAligned true o p h k = h
if-IsAligned false o p h k = k

module _ (m : MysqlMigration) (prefix : Bytes) where
  schema_files-IsAligned : (o : Output) → IsAligned o → IsAligned (Sql.schema_files m prefix o)
  unfolding Sql.schema_files Sql.schemas_undo
  schema_files-IsAligned o h =
      if-IsAligned _ _ o
        (if-IsAligned _ _ _
          (put_name-put_buf-IsAligned prefix _ _ _ (next-IsAligned prefix _ _ o h))
          (next-IsAligned prefix _ _ o h))
        h

  table_files-IsAligned : (o : Output) → IsAligned o → IsAligned (Sql.table_files m prefix o)
  unfolding Sql.table_files Sql.tables_undo
  table_files-IsAligned o h =
      if-IsAligned _ _ o
        (if-IsAligned _ _ _
          (put_name-put_buf-IsAligned prefix _ _ _ (next-IsAligned prefix _ _ o h))
          (next-IsAligned prefix _ _ o h))
        h

  drop_fkey_file-IsAligned :
      (x : Constraint) (o : Output) → IsAligned o → IsAligned (Sql.drop_fkey_file m prefix x o)
  unfolding Sql.drop_fkey_file
  drop_fkey_file-IsAligned x o h = next-IsAligned prefix _ _ o h

  add_fkey_file-IsAligned :
      (x : Constraint) (o : Output) → IsAligned o → IsAligned (Sql.add_fkey_file m prefix x o)
  unfolding Sql.add_fkey_file
  add_fkey_file-IsAligned x o h = next-IsAligned prefix _ _ o h

  warn_step-IsAligned :
      (a : MysqlAlterTable) (c : Column × Column) (o : Output)
      → IsAligned o
      → IfReturns IsAligned (Sql.warn_step m prefix a c o)
  unfolding Sql.warn_step
  warn_step-IsAligned a c o h =
      IfReturns-bind IsAligned (normalize_column_type dialect_mysql c.0.column_type) _ (λ from.
        IfReturns-bind IsAligned (normalize_column_type dialect_mysql c.1.column_type) _
          (λ to. record { same_length = h.same_length }))

  alter_step-IsAligned :
      (a : MysqlAlterTable) (o : Output)
      → IsAligned o
      → IfReturns IsAligned (Sql.alter_step m prefix a o)
  unfolding Sql.alter_step Sql.alter_file
  alter_step-IsAligned a o h =
      each_step-IfReturns IsAligned (Sql.warn_step m prefix a) (warn_step-IsAligned a)
        a.alter_columns _ (next-IsAligned prefix _ _ o h)

  pub mysql_sql-IsAligned :
      (files : MigrationFiles)
      → Sql.mysql_sql m prefix ≡ ret files
      → length files.filenames ≡ length files.bufs
  unfolding Sql.mysql_sql
  mysql_sql-IsAligned files e = subst (IfReturns (λ f. length f.filenames ≡ length f.bufs)) e (
      IfReturns-bind_with (λ f. length f.filenames ≡ length f.bufs) IsAligned
        (each_step (Sql.alter_step m prefix) m.alter_tables _) _
        (each_step-IfReturns IsAligned (Sql.alter_step m prefix) alter_step-IsAligned m.alter_tables
          _
          (table_files-IsAligned _ (
            schema_files-IsAligned _ (
              each_file-IsAligned (Sql.drop_fkey_file m prefix) drop_fkey_file-IsAligned
                m.drop_fkeys _ (record { same_length = refl })))))
        (λ o h.
          (each_file-IsAligned (Sql.add_fkey_file m prefix) add_fkey_file-IsAligned m.add_fkeys o
            h).same_length))

module _ (m : PostgresMigration) (prefix : Bytes) where
  of_first-IsAligned :
      (file : Constraint → Output → Output) (fkeys : List Constraint) (o : Output)
      → ((x : Constraint) (o : Output) → IsAligned o → IsAligned (file x o))
      → IsAligned o
      → IfReturns IsAligned (Pg.of_first m prefix file fkeys o)
  of_first-IsAligned file [] o keep h = tt
  of_first-IsAligned file (fk ∷ fkeys) o keep h = keep fk o h

  drop_fkeys_step-IsAligned :
      (fkeys : List Constraint) (o : Output)
      → IsAligned o
      → IfReturns IsAligned (Pg.drop_fkeys_step m prefix fkeys o)
  unfolding Pg.drop_fkeys_step
  drop_fkeys_step-IsAligned fkeys o =
      of_first-IsAligned _ fkeys o (λ x o. next-IsAligned prefix _ _ o)

  add_fast_fkeys_step-IsAligned :
      (fkeys : List Constraint) (o : Output)
      → IsAligned o
      → IfReturns IsAligned (Pg.add_fast_fkeys_step m prefix fkeys o)
  unfolding Pg.add_fast_fkeys_step
  add_fast_fkeys_step-IsAligned fkeys o =
      of_first-IsAligned _ fkeys o (λ x o. next-IsAligned prefix _ _ o)

  add_fkeys_step-IsAligned :
      (fkeys : List Constraint) (o : Output)
      → IsAligned o
      → IfReturns IsAligned (Pg.add_fkeys_step m prefix fkeys o)
  unfolding Pg.add_fkeys_step
  add_fkeys_step-IsAligned fkeys o =
      of_first-IsAligned _ fkeys o
        (λ x o h. next-IsAligned prefix _ _ _ (next-IsAligned prefix _ _ o h))

  postgres_schema_files-IsAligned :
      (o : Output) → IsAligned o → IsAligned (Pg.schema_files m prefix o)
  unfolding Pg.schema_files
  postgres_schema_files-IsAligned o h = if-IsAligned _ _ o (next-IsAligned prefix _ _ o h) h

  postgres_table_files-IsAligned :
      (o : Output) → IsAligned o → IsAligned (Pg.table_files m prefix o)
  unfolding Pg.table_files
  postgres_table_files-IsAligned o h = if-IsAligned _ _ o (next-IsAligned prefix _ _ o h) h

  create_index_files-IsAligned :
      (x : Index) (o : Output) → IsAligned o → IsAligned (Pg.create_index_files m prefix x o)
  unfolding Pg.create_index_files
  create_index_files-IsAligned x o h =
      put_name-put_buf-IsAligned prefix _ _ _ (next-IsAligned prefix _ _ o h)

  add_key_files-IsAligned :
      (table : Bytes) (x : Constraint) (o : Output)
      → IsAligned o
      → IsAligned (Pg.add_key_files m prefix table x o)
  unfolding Pg.add_key_files
  add_key_files-IsAligned table x o h =
      next-IsAligned prefix _ _ _ (create_index_files-IsAligned (Pg.key_index x) o h)

  validate_file-IsAligned :
      (table label : Bytes) (a : PostgresAlterTable) (o : Output)
      → IsAligned o
      → IsAligned (Pg.validate_file m prefix table label a o)
  unfolding Pg.validate_file
  validate_file-IsAligned table label a o h = if-IsAligned _ _ o (next-IsAligned prefix _ _ o h) h

  alter_file-IsAligned :
      (table label : Bytes) (a : PostgresAlterTable) (o : Output) (w : Bytes × List Bytes)
      → IsAligned o
      → IsAligned (Pg.alter_file m prefix table label a o w)
  unfolding Pg.alter_file Pg.concurrent_files
  alter_file-IsAligned table label a o w h =
      let written = next-IsAligned prefix _ _ o h in
      each_file-IsAligned (Pg.add_key_files m prefix table) (add_key_files-IsAligned table)
        a.add_constraints_concurrently _
        (each_file-IsAligned (Pg.create_index_files m prefix) create_index_files-IsAligned
          a.create_indexes_concurrently _
          (validate_file-IsAligned table label a _ (record { same_length = written.same_length })))

  postgres_alter_step-IsAligned :
      (a : PostgresAlterTable) (o : Output)
      → IsAligned o
      → IfReturns IsAligned (Pg.alter_step m prefix a o)
  unfolding Pg.alter_step
  postgres_alter_step-IsAligned a o h =
      IfReturns-bind IsAligned
        (each_step
          (Pg.alter_column_step m prefix (Pg.table_text m prefix a.table_schema a.table_name))
          a.alter_columns _)
        _ (λ w. alter_file-IsAligned _ _ a o w h)

  pub postgres_sql-IsAligned :
      (files : MigrationFiles)
      → Pg.postgres_sql m prefix ≡ ret files
      → length files.filenames ≡ length files.bufs
  unfolding Pg.postgres_sql
  postgres_sql-IsAligned files e = subst (IfReturns (λ f. length f.filenames ≡ length f.bufs)) e (
      after (each_step (Pg.drop_fkeys_step m prefix) m.drop_fkeys.groups (no_output [])) _
        (each_step-IfReturns IsAligned _ drop_fkeys_step-IsAligned m.drop_fkeys.groups _
          (record { same_length = refl }))
        (λ dropped h.
          after (each_step (Pg.alter_step m prefix) m.alter_tables _) _
            (each_step-IfReturns IsAligned _ postgres_alter_step-IsAligned m.alter_tables _
              (postgres_table_files-IsAligned _ (postgres_schema_files-IsAligned dropped h)))
            (λ altered h.
              after (each_step (Pg.add_fast_fkeys_step m prefix) m.add_fast_fkeys.groups altered) _
                (each_step-IfReturns IsAligned _ add_fast_fkeys_step-IsAligned
                  m.add_fast_fkeys.groups altered h)
                (λ fast h.
                  after (each_step (Pg.add_fkeys_step m prefix) m.add_fkeys.groups fast) _
                    (each_step-IfReturns IsAligned _ add_fkeys_step-IsAligned m.add_fkeys.groups
                      fast h)
                    (λ added h. h.same_length)))))
    where
      after :
          (o : Outcome Output) (f : Output → Outcome MigrationFiles)
          → IfReturns IsAligned o
          → ((o : Output) → IsAligned o → IfReturns (λ f. length f.filenames ≡ length f.bufs) (f o))
          → IfReturns (λ f. length f.filenames ≡ length f.bufs) (o >>= f)
      after o f h then' = IfReturns-bind_with _ IsAligned o f h then'
