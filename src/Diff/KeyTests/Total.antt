-- ===== src/Diff/KeyTests/Total.antt =====
-- Migrations of MySQL and Postgres that are returned, and those from a catalog to itself, at concrete
-- catalogs.
use sqddl.Base.{true, [], ◌≡◌, refl, Bytes, codes}
use sqddl.Cache.Build.Decide.{
  is_well_formed, is_well_formed_sound, has_distinct_parts, has_distinct_tables, has_named,
  all_pass, are_distinct,
}
use sqddl.Cache.Build.WellFormed.{IsWellFormed}
use sqddl.Catalog.{dialect_mysql, dialect_postgres}
use sqddl.Diff.KeyTests.{runs, id_column, linked, loose}
use sqddl.Cache.Slots.{ret}
use sqddl.Diff.Mysql.{start_mysql, new_mysql_migration}
use sqddl.Diff.Mysql.Same.{new_mysql_migration-same}
use sqddl.Diff.Postgres.{start_postgres, new_postgres_migration}
use sqddl.Diff.Postgres.Same.{new_postgres_migration-same}
use sqddl.Diff.Mysql.Total.{new_mysql_migration-Returns}
use sqddl.Diff.Usable.{IsTyped, HasTypes}
use sqddl.Diff.Yields.{Returns, Yields-of}

well_formed_runs : Unit {0}
unfolding runs is_well_formed has_distinct_parts has_distinct_tables has_named all_pass are_distinct
well_formed_runs = tt

linked-IsWellFormed : IsWellFormed (linked dialect_mysql)
unfolding well_formed_runs
linked-IsWellFormed = is_well_formed_sound (linked dialect_mysql) refl

loose-IsWellFormed : IsWellFormed (loose dialect_mysql)
unfolding well_formed_runs
loose-IsWellFormed = is_well_formed_sound (loose dialect_mysql) refl

id-IsTyped : (table : Bytes) → IsTyped dialect_mysql (id_column table)
unfolding runs
id-IsTyped table = record { normalizes = Yields-of _ _ (codes "INT", [], []) refl tt }

linked-HasTypes : HasTypes dialect_mysql (linked dialect_mysql)
linked-HasTypes = (((id-IsTyped (codes "a"), tt), ((id-IsTyped (codes "b"), tt), tt)), tt)

loose-HasTypes : HasTypes dialect_mysql (loose dialect_mysql)
loose-HasTypes = (((id-IsTyped (codes "a"), tt), ((id-IsTyped (codes "b"), tt), tt)), tt)

new_mysql_migration-Returns_example :
    Returns (new_mysql_migration (linked dialect_mysql) (loose dialect_mysql) true)
new_mysql_migration-Returns_example =
    new_mysql_migration-Returns (linked dialect_mysql) (loose dialect_mysql) true
      linked-IsWellFormed loose-IsWellFormed linked-HasTypes loose-HasTypes

new_mysql_migration-same_example :
    new_mysql_migration (linked dialect_mysql) (linked dialect_mysql) true
    ≡ ret (start_mysql (linked dialect_mysql))
new_mysql_migration-same_example =
    new_mysql_migration-same (linked dialect_mysql) true linked-IsWellFormed linked-HasTypes

postgres-IsWellFormed : IsWellFormed (linked dialect_postgres)
unfolding well_formed_runs
postgres-IsWellFormed = is_well_formed_sound (linked dialect_postgres) refl

postgres-IsTyped : (table : Bytes) → IsTyped dialect_postgres (id_column table)
unfolding runs
postgres-IsTyped table = record { normalizes = Yields-of _ _ (codes "INT", [], []) refl tt }

postgres-HasTypes : HasTypes dialect_postgres (linked dialect_postgres)
postgres-HasTypes =
    (((postgres-IsTyped (codes "a"), tt), ((postgres-IsTyped (codes "b"), tt), tt)), tt)

new_postgres_migration-same_example :
    new_postgres_migration (linked dialect_postgres) (linked dialect_postgres) true
    ≡ ret (start_postgres (linked dialect_postgres))
new_postgres_migration-same_example =
    new_postgres_migration-same (linked dialect_postgres) true postgres-IsWellFormed
      postgres-HasTypes
