-- ===== src/Diff/Sqlite/Additive.antt =====
-- The migration that may not drop objects: what its SQL consists of.
use sqddl.Base.{
  Bool, true, false, ◌||◌, List, [], ◌∷◌, ◌++◌, Option, none, some, ◌≡◌, refl, ap, ◌∙◌, subst,
  if◌then◌else◌, map, All, Bool-cases, inl, inr, Bytes, codes,
}
use sqddl.Cache.Slots.{ret}
use sqddl.Cache.State.{CatalogCache}
use sqddl.Catalog.{Catalog, Schema, Table}
use sqddl.Diff.Files.{each_write}
use sqddl.Diff.Lookups.{has_any, find_table}
use sqddl.Diff.Returns.{IfReturns, IfReturns-bind, IfReturns-bind_with}
use sqddl.Diff.Sqlite.{
  SqliteAlterTable, SqliteMigration, is_passed_over, diff_sqlite_table, is_worth_altering,
  only_additions, add_alteration, place_table, diff_sqlite_tables, dropped_tables,
  diff_sqlite_schemas, sqlite_migration_of, new_sqlite_migration,
}
use sqddl.Diff.Sqlite.Sql.{
  quoted, any_forces_copy, constraints_force_copy, is_copied, with_copied, has_copied, index_block,
  create_table_blocks, add_column_block, alter_in_place, alter_table_blocks, pragma, sqlite_buf,
  sqlite_sql,
}
use sqddl.Writers.Pieces.{is_given}

-- Nothing is dropped, altered or constrained.
abbrev pub IsAdditive : SqliteAlterTable → Type 0
IsAdditive a =
    (a.drop_indexes ≡ [])
    × (a.drop_constraints ≡ [])
    × (a.drop_columns ≡ [])
    × (a.alter_columns ≡ [])
    × (a.add_constraints ≡ [])

add_alteration-IsAdditive :
    (a : SqliteAlterTable) (rest : List SqliteAlterTable)
    → All IsAdditive rest
    → All IsAdditive (add_alteration false a rest)
unfolding add_alteration only_additions
add_alteration-IsAdditive a rest h =
    by_tests (is_worth_altering a) (has_any a.add_columns || has_any a.create_indexes)
  where
    by_tests :
        (b c : Bool)
        → All IsAdditive (
            if b
            then (if false then a ∷ rest else if c then only_additions a ∷ rest else rest)
            else rest)
    by_tests true true = ((refl, refl, refl, refl, refl), h)
    by_tests true false = h
    by_tests false c = h

module _ (src_cache dest_cache : CatalogCache) (src : Schema) where
  place_table-IsAdditive :
      (t : Table) (rest : List Table × List SqliteAlterTable) (o : Option Table)
      → All IsAdditive rest.1
      → IfReturns (λ r. All IsAdditive r.1) (place_table src_cache dest_cache src false t rest o)
  unfolding place_table
  place_table-IsAdditive t rest none h = h
  place_table-IsAdditive t rest (some old) h =
      IfReturns-bind (λ r. All IsAdditive r.1) (diff_sqlite_table src_cache dest_cache old t) _
        (λ a. add_alteration-IsAdditive a rest.1 h)

  diff_sqlite_tables-IsAdditive :
      (ts : List Table)
      → IfReturns (λ r. All IsAdditive r.1) (diff_sqlite_tables src_cache dest_cache src false ts)
  unfolding diff_sqlite_tables
  diff_sqlite_tables-IsAdditive [] = tt
  diff_sqlite_tables-IsAdditive (t ∷ ts) = elim (Bool-cases (is_passed_over t)) [
    | inl skip ↦ rw skip (diff_sqlite_tables-IsAdditive ts)
    | inr here ↦ rw here (
        IfReturns-bind (λ r. All IsAdditive r.1) (find_table src_cache src t.table_name) _
          (λ found.
            IfReturns-bind_with (λ r. All IsAdditive r.1) (λ r. All IsAdditive r.1)
              (diff_sqlite_tables src_cache dest_cache src false ts) _
              (diff_sqlite_tables-IsAdditive ts) (λ rest h. place_table-IsAdditive t rest found h)))
  ]

-- No table is dropped, and no alteration does more than add.
abbrev pub OnlyAdds : SqliteMigration → Type 0
OnlyAdds m = (m.drop_tables ≡ []) × All IsAdditive m.alter_tables

diff_sqlite_schemas-OnlyAdds :
    (src_cache dest_cache : CatalogCache) (src dest : Schema)
    → IfReturns OnlyAdds (diff_sqlite_schemas src_cache dest_cache src dest false)
unfolding diff_sqlite_schemas dropped_tables
diff_sqlite_schemas-OnlyAdds src_cache dest_cache src dest =
    IfReturns-bind_with OnlyAdds (λ r. All IsAdditive r.1)
      (diff_sqlite_tables src_cache dest_cache src false dest.tables) _
      (diff_sqlite_tables-IsAdditive src_cache dest_cache src dest.tables) (λ r h. (refl, h))

migration_of-OnlyAdds :
    (src dest : Catalog) (ss ds : List Schema)
    → IfReturns OnlyAdds (sqlite_migration_of src dest false ss ds)
unfolding sqlite_migration_of
migration_of-OnlyAdds src dest [] [] = (refl, tt)
migration_of-OnlyAdds src dest (s ∷ ss) [] = (refl, tt)
migration_of-OnlyAdds src dest [] (d ∷ ds) = (refl, tt)
migration_of-OnlyAdds src dest (s ∷ ss) (d ∷ ds) = diff_sqlite_schemas-OnlyAdds _ _ _ _

-- The SQL that adds: CREATE TABLE with the indexes of the table, then for each table that is altered
-- ALTER TABLE ... ADD COLUMN and CREATE INDEX.
abbrev pub adding_blocks : SqliteAlterTable → Bytes → Bytes
adding_blocks a buf =
    each_write index_block a.create_indexes
      (each_write (add_column_block (quoted a.dest_table.table_name)) a.add_columns buf)

abbrev pub adding_sql : SqliteMigration → Bytes
adding_sql m =
    each_write adding_blocks m.alter_tables (each_write create_table_blocks m.create_tables [])

abbrev uncopied : SqliteAlterTable → SqliteAlterTable × Bool
uncopied a = (a, false)

is_copied-IsAdditive : (a : SqliteAlterTable) → IsAdditive a → is_copied a ≡ ret false
unfolding is_copied constraints_force_copy any_forces_copy
is_copied-IsAdditive a (_, drops, _, alters, adds) = rw (alters, drops, adds) refl

with_copied-IsAdditive :
    (as' : List SqliteAlterTable) → All IsAdditive as' → with_copied as' ≡ ret (map uncopied as')
unfolding with_copied
with_copied-IsAdditive [] h = refl
with_copied-IsAdditive (a ∷ as') (p, h) =
    rw (is_copied-IsAdditive a p, with_copied-IsAdditive as' h) refl

has_copied-uncopied : (as' : List SqliteAlterTable) → has_copied (map uncopied as') ≡ false
unfolding has_copied
has_copied-uncopied [] = refl
has_copied-uncopied (a ∷ as') = has_copied-uncopied as'

alter_in_place-IsAdditive :
    (a : SqliteAlterTable) (buf : Bytes) → IsAdditive a → alter_in_place a buf ≡ adding_blocks a buf
unfolding alter_in_place each_write
alter_in_place-IsAdditive a buf (indexes, _, columns, _, _) = rw (columns, indexes) refl

each_write-uncopied :
    (as' : List SqliteAlterTable) (buf : Bytes)
    → All IsAdditive as'
    → each_write alter_table_blocks (map uncopied as') buf ≡ each_write adding_blocks as' buf
unfolding each_write alter_table_blocks
each_write-uncopied [] buf h = refl
each_write-uncopied (a ∷ as') buf (p, h) =
    ap (each_write alter_table_blocks (map uncopied as')) (alter_in_place-IsAdditive a buf p)
    ∙ each_write-uncopied as' (adding_blocks a buf) h

sqlite_buf-OnlyAdds :
    (m : SqliteMigration) → OnlyAdds m → sqlite_buf m (map uncopied m.alter_tables) ≡ adding_sql m
unfolding sqlite_buf pragma each_write
sqlite_buf-OnlyAdds m (drops, adds) =
    rw (has_copied-uncopied m.alter_tables, drops)
      (each_write-uncopied m.alter_tables (each_write create_table_blocks m.create_tables []) adds)

sqlite_sql-OnlyAdds :
    (m : SqliteMigration) (prefix : Bytes)
    → OnlyAdds m
    → sqlite_sql m prefix
      ≡ ret (record {
        filenames = if is_given (adding_sql m) then (prefix ++ codes ".sql") ∷ [] else [];
        bufs = adding_sql m ∷ [];
        warnings = [];
      })
unfolding sqlite_sql
sqlite_sql-OnlyAdds m prefix o =
    rw (with_copied-IsAdditive m.alter_tables o.1, sqlite_buf-OnlyAdds m o) refl

-- A migration that newSQLiteMigration returns when objects may not be dropped drops no table, index,
-- constraint or column, alters no column and adds no constraint. Its SQL can be written, without a
-- panic, and is one buffer that only creates tables and indexes and adds columns: no table is
-- copied. The file is named, unless the buffer is empty.
pub new_sqlite_migration-additive :
    (src dest : Catalog) (m : SqliteMigration) (prefix : Bytes)
    → new_sqlite_migration src dest false ≡ ret m
    → OnlyAdds m
      × (sqlite_sql m prefix
          ≡ ret (record {
            filenames = if is_given (adding_sql m) then (prefix ++ codes ".sql") ∷ [] else [];
            bufs = adding_sql m ∷ [];
            warnings = [];
          }))
unfolding new_sqlite_migration
new_sqlite_migration-additive src dest m prefix e =
    let adds : OnlyAdds m =
      subst (IfReturns OnlyAdds) e (migration_of-OnlyAdds src dest src.schemas dest.schemas) in
    (adds, sqlite_sql-OnlyAdds m prefix adds)
