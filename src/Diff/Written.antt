-- ===== src/Diff/Written.antt =====
-- The sql methods of MySQL and Postgres return, with a buffer for each file.
use sqddl.Base.{List, [], ◌∷◌, ◌≡◌, length, All, Bytes}
use sqddl.Cache.Slots.{ret}
use sqddl.Catalog.{Column, Constraint, dialect_mysql, dialect_postgres}
use sqddl.Diff.Aligned.{mysql_sql-IsAligned, postgres_sql-IsAligned}
use sqddl.Diff.Files.{MigrationFiles, Output}
use sqddl.Diff.Mysql.{MysqlAlterTable, MysqlMigration}
use sqddl.Diff.Mysql.Sql
use sqddl.Diff.Postgres.{PostgresAlterTable, PostgresMigration}
use sqddl.Diff.Postgres.Sql as Pg
use sqddl.Diff.Usable.{IsTyped}
use sqddl.Diff.Yields.{Returns, Returns-bind, Returns-ret, each_step-Returns}

-- normalizeColumnType panics on neither type of a column that is altered
abbrev pub HasTypedEnds : Bytes → Column × Column → Type 0
HasTypedEnds dialect c = IsTyped dialect c.0 × IsTyped dialect c.1

abbrev pub AreTypedInMysql : List MysqlAlterTable → Type 0
AreTypedInMysql = All (λ a. All (HasTypedEnds dialect_mysql) a.alter_columns)

abbrev pub AreTypedInPostgres : List PostgresAlterTable → Type 0
AreTypedInPostgres = All (λ a. All (HasTypedEnds dialect_postgres) a.alter_columns)

abbrev pub HasKeys : List Constraint → Type 0
HasKeys [] = ⊥
HasKeys (x ∷ xs) = Unit

-- No group of foreign keys is empty.
pub record HasGroups (m : PostgresMigration) : Type 0 where
  pub drops : All HasKeys m.drop_fkeys.groups
  pub fast : All HasKeys m.add_fast_fkeys.groups
  pub adds : All HasKeys m.add_fkeys.groups

module _ (m : MysqlMigration) (prefix : Bytes) where
  warn_step-Returns :
      (a : MysqlAlterTable) (c : Column × Column) (o : Output)
      → HasTypedEnds dialect_mysql c
      → Returns (Sql.warn_step m prefix a c o)
  unfolding Sql.warn_step
  warn_step-Returns a c o (from, to) =
      Returns-bind _ _ from.normalizes
        (λ old. Returns-bind _ _ to.normalizes (λ new. Returns-ret _))

  mysql_sql-Returns : AreTypedInMysql m.alter_tables → Returns (Sql.mysql_sql m prefix)
  unfolding Sql.mysql_sql Sql.alter_step
  mysql_sql-Returns typed =
      Returns-bind _ _
        (each_step-Returns
          (λ (a : MysqlAlterTable). All (HasTypedEnds dialect_mysql) a.alter_columns)
          (Sql.alter_step m prefix)
          (λ a o h.
            each_step-Returns (HasTypedEnds dialect_mysql) (Sql.warn_step m prefix a)
              (warn_step-Returns a) a.alter_columns h _)
          m.alter_tables typed _)
        (λ o. Returns-ret _)

module _ (m : PostgresMigration) (prefix : Bytes) where
  of_first-Returns :
      (file : Constraint → Output → Output) (fkeys : List Constraint) (o : Output)
      → HasKeys fkeys
      → Returns (Pg.of_first m prefix file fkeys o)
  of_first-Returns file [] o h = absurd h
  of_first-Returns file (fk ∷ fkeys) o h = Returns-ret _

  alter_column_step-Returns :
      (table : Bytes) (c : Column × Column) (w : Bytes × List Bytes)
      → HasTypedEnds dialect_postgres c
      → Returns (Pg.alter_column_step m prefix table c w)
  unfolding Pg.alter_column_step
  alter_column_step-Returns table c w (from, to) =
      Returns-bind _ _ from.normalizes
        (λ old. Returns-bind _ _ to.normalizes (λ new. Returns-ret _))

  postgres_alter_step-Returns :
      (a : PostgresAlterTable) (o : Output)
      → All (HasTypedEnds dialect_postgres) a.alter_columns
      → Returns (Pg.alter_step m prefix a o)
  unfolding Pg.alter_step
  postgres_alter_step-Returns a o h =
      Returns-bind _ _
        (each_step-Returns (HasTypedEnds dialect_postgres) _ (alter_column_step-Returns _)
          a.alter_columns h _)
        (λ w. Returns-ret _)

  postgres_sql-Returns :
      AreTypedInPostgres m.alter_tables → HasGroups m → Returns (Pg.postgres_sql m prefix)
  unfolding Pg.postgres_sql Pg.drop_fkeys_step Pg.add_fast_fkeys_step Pg.add_fkeys_step
  postgres_sql-Returns typed groups =
      Returns-bind _ _
        (each_step-Returns HasKeys (Pg.drop_fkeys_step m prefix) (λ g o. of_first-Returns _ g o)
          m.drop_fkeys.groups groups.drops _)
        (λ dropped.
          Returns-bind _ _
            (each_step-Returns
              (λ (a : PostgresAlterTable). All (HasTypedEnds dialect_postgres) a.alter_columns)
              (Pg.alter_step m prefix) postgres_alter_step-Returns m.alter_tables typed _)
            (λ altered.
              Returns-bind _ _
                (each_step-Returns HasKeys (Pg.add_fast_fkeys_step m prefix)
                  (λ g o. of_first-Returns _ g o) m.add_fast_fkeys.groups groups.fast _)
                (λ fast.
                  Returns-bind _ _
                    (each_step-Returns HasKeys (Pg.add_fkeys_step m prefix)
                      (λ g o. of_first-Returns _ g o) m.add_fkeys.groups groups.adds _)
                    (λ added. Returns-ret _))))

-- The sql methods of MySQL and Postgres return, and do not panic, with as many buffers as file names,
-- if normalizeColumnType panics on no type of a column that is altered and no group of foreign keys
-- is empty.
pub mysql_sql-postgres_sql :
    (m : MysqlMigration) (p : PostgresMigration) (prefix : Bytes)
    → AreTypedInMysql m.alter_tables
    → AreTypedInPostgres p.alter_tables
    → HasGroups p
    → (files : MigrationFiles) × (others : MigrationFiles) × (Sql.mysql_sql m prefix ≡ ret files)
      × (Pg.postgres_sql p prefix ≡ ret others)
      × (length files.filenames ≡ length files.bufs)
      × (length others.filenames ≡ length others.bufs)
mysql_sql-postgres_sql m p prefix typed types groups =
    let files = mysql_sql-Returns m prefix typed in
    let others = postgres_sql-Returns p prefix types groups in
    (
      files.result,
      others.result,
      files.returns,
      others.returns,
      mysql_sql-IsAligned m prefix files.result files.returns,
      postgres_sql-IsAligned p prefix others.result others.returns,
    )
