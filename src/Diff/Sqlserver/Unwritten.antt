-- ===== src/Diff/Sqlserver/Unwritten.antt =====
-- sqlserver_migration.go: a column that becomes not null.
use sqddl.Base.{Bool, true, false, List, ◌≡◌, refl, sym, Bytes, append-nil, not}
use sqddl.Cache.Slots.{ret}
use sqddl.Catalog.{Column, dialect_sqlserver}
use sqddl.Diff.Sqlserver.Changes.{
  new_collation, nullability, retype_warning, alter_type, alter_default, alter_sqlserver_column,
}
use sqddl.Diff.Steps.{types_differ, defaults_differ, sqlserver_columns_differ}
use sqddl.Sql.Quote.{is_among}
use sqddl.Writers.Pieces.{is_given, is_foreign}

not-false : (b : Bool) → not b ≡ false → b ≡ true
not-false true e = refl
not-false false e = sym e

-- A column that may be null in the source and is NOT NULL in the destination, with the same
-- normalized type and default in both, counts as different, but nothing is written for it: neither
-- SQL nor a warning. In the destination it must be no identity and no part of the primary key, and
-- its collation must be empty or the default collation.
pub alter_sqlserver_column-unwritten :
    (default_collation table schema name : Bytes) (pkey : List Bytes) (old x : Column)
    (w : Bytes × List Bytes)
    → types_differ dialect_sqlserver old x ≡ ret false
    → defaults_differ dialect_sqlserver old x ≡ false
    → is_foreign x.collation_name default_collation ≡ false
    → is_among pkey x.column_name ≡ false
    → is_given x.column_identity ≡ false
    → old.is_not_null ≡ false
    → x.is_not_null ≡ true
    → (sqlserver_columns_differ dialect_sqlserver default_collation old x ≡ ret true)
      × (alter_sqlserver_column default_collation table schema name pkey old x w ≡ ret w)
unfolding sqlserver_columns_differ alter_sqlserver_column retype_warning alter_type alter_default
    nullability new_collation
alter_sqlserver_column-unwritten dc table schema name pkey old x w types default foreign key
      identity nullable not_null =
    let same = not-false _ default in
    (
      rw (types, same, nullable, not_null) refl,
      rw (types, foreign, key, identity, nullable, same, append-nil w.1) refl,
    )
