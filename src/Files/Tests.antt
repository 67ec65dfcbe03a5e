-- ===== src/Files/Tests.antt =====
-- Runs of the functions of ddl/touch_cmd.go, and the theorems at concrete names.
use sqddl.Base.{
  List, [], ◌∷◌, ◌++◌, ◌≡◌, refl, Bytes, codes, text_eq, has_prefix, has_suffix, drop_prefix,
  trim_prefix,
}
use sqddl.Files.{
  behind_slash, without_slashes, base_of, is_left_out, is_repeatable_file, sort_from,
  sort_and_filter_filenames, without_dot, normalize_filename,
}
use sqddl.Files.Filtered.{Filters, IsRegular, IsRepeatable, sort_and_filter_filenames-Filters}

files : Unit {0}
unfolding text_eq has_prefix has_suffix drop_prefix trim_prefix behind_slash without_slashes base_of
    is_left_out is_repeatable_file sort_from sort_and_filter_filenames without_dot
    normalize_filename
files = tt

abbrev names : List Bytes
names =
    codes "repeatable/v.sql"
    ∷ codes "2.sql"
    ∷ codes "a/schema.sql"
    ∷ codes "2.undo.sql"
    ∷ codes "1.tx.sql"
    ∷ codes "notes.txt"
    ∷ []

sort_test :
    sort_and_filter_filenames names
    ≡ codes "2.sql" ∷ codes "1.tx.sql" ∷ codes "repeatable/v.sql" ∷ []
unfolding files
sort_test = refl

normalize_test : normalize_filename (codes "./db/1.sql") (codes "db") ≡ codes "1.sql"
unfolding files
normalize_test = refl

sort_and_filter_filenames-Filters_example :
    (once : List Bytes) × (again : List Bytes) × (sort_and_filter_filenames names ≡ once ++ again)
    × Filters IsRegular names once
    × Filters IsRepeatable names again
sort_and_filter_filenames-Filters_example = sort_and_filter_filenames-Filters names
