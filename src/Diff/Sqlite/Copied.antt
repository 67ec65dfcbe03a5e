-- ===== src/Diff/Sqlite/Copied.antt =====
-- copyTable: the columns whose values are carried over to the new table.
use sqddl.Base.{
  Bool, false, not, ◌&&◌, ◌||◌, List, [], ◌∷◌, ◌≡◌, refl, Bool-cases, inl, inr, Bytes, text_eq,
  text_eq_iff, arith,
}
use sqddl.Catalog.{Column}
use sqddl.Diff.Sqlite.{SqliteAlterTable}
use sqddl.Diff.Sqlite.Sql.{plain_names, names_among, insert_columns}
use sqddl.Sql.Quote.{is_among}
use sqddl.Writers.Pieces.{is_given}

-- A column of the name that takes a value, since it is not generated.
abbrev pub has_plain : Bytes → List Column → Bool
has_plain n [] = false
has_plain n (x ∷ xs) =
    (not (x.is_generated || is_given x.generated_expr) && text_eq x.column_name n) || has_plain n xs

abbrev pub has_column : Bytes → List Column → Bool
has_column n [] = false
has_column n (x ∷ xs) = text_eq x.column_name n || has_column n xs

is_among-plain_names : (n : Bytes) (xs : List Column) → is_among (plain_names xs) n ≡ has_plain n xs
unfolding is_among plain_names
is_among-plain_names n [] = refl
is_among-plain_names n (x ∷ xs) = ground (arith, is_among-plain_names n xs)

is_among-names_among :
    (n : Bytes) (names : List Bytes) (xs : List Column)
    → is_among (names_among names xs) n ≡ (has_column n xs && is_among names n)
unfolding is_among names_among
is_among-names_among n names [] = refl
is_among-names_among n names (x ∷ xs) = elim (Bool-cases (text_eq x.column_name n)) [
  | inl same ↦
      let e = (text_eq_iff x.column_name n).0 same in
      ground (arith, is_among-names_among n names xs, e, same)
  | inr other ↦ ground (arith, is_among-names_among n names xs, other)
]

-- When a table is copied, a column's values are carried over exactly if the old table has a column
-- of the name and the new one has one that is not generated.
pub insert_columns_iff :
    (a : SqliteAlterTable) (n : Bytes)
    → is_among (insert_columns a) n
      ≡ (has_column n a.src_table.columns && has_plain n a.dest_table.columns)
unfolding insert_columns
insert_columns_iff a n =
    rw (← is_among-plain_names n a.dest_table.columns)
      (is_among-names_among n (plain_names a.dest_table.columns) a.src_table.columns)
