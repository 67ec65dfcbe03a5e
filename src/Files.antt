-- ===== src/Files.antt =====
-- ddl/touch_cmd.go: which files of the migration directory are migrations, and their order, where a
-- path separator is a slash (filepath.ToSlash changes nothing).
pub mod Order
pub mod Filtered
pub mod Tests
use sqddl.Base.{
  Bool, true, false, not, ◌&&◌, ◌||◌, List, [], ◌∷◌, ◌++◌, if◌then◌else◌, ◌==◌, Bytes, codes,
  has_prefix, has_suffix, text_eq, trim_prefix,
}

-- the text behind the last slash, or `found` if there is none
unfoldable pub behind_slash : Bytes → Bytes → Bytes
behind_slash found [] = found
behind_slash found (c ∷ s) = behind_slash (if c == b'/' then s else found) s

unfoldable pub without_slashes : Bytes → Bytes
without_slashes [] = []
without_slashes (c ∷ s) =
    let rest = without_slashes s in
    if c == b'/' then (if text_eq rest [] then [] else c ∷ rest) else c ∷ rest

-- filepath.Base
unfoldable pub base_of : Bytes → Bytes
base_of [] = codes "."
base_of (c ∷ s) =
    let trimmed = without_slashes (c ∷ s) in
    if text_eq trimmed [] then codes "/" else behind_slash trimmed trimmed

abbrev pub is_reserved : Bytes → Bool
is_reserved name =
    text_eq name (codes "schema.sql")
    || text_eq name (codes "indexes.sql")
    || text_eq name (codes "constraints.sql")

-- the two `continue`s of sortAndFilterFilenames
unfoldable pub is_left_out : Bytes → Bool
is_left_out filename =
    not (has_suffix filename (codes ".sql"))
    || has_suffix filename (codes ".undo.sql")
    || is_reserved (base_of filename)

unfoldable pub is_repeatable_file : Bytes → Bool
is_repeatable_file filename = has_prefix filename (codes "repeatable/")

-- The loop, with the slices `result` and `repeatable` so far.
unfoldable pub sort_from : List Bytes → List Bytes → List Bytes → List Bytes
sort_from [] result repeatable = result ++ repeatable
sort_from (f ∷ fs) result repeatable =
    sort_from fs (if is_left_out f || is_repeatable_file f then result else result ++ f ∷ [])
      (if is_left_out f || not (is_repeatable_file f) then repeatable else repeatable ++ f ∷ [])

unfoldable pub sort_and_filter_filenames : List Bytes → List Bytes
sort_and_filter_filenames filenames = sort_from filenames [] []

-- without "." and then "/" in front, if it starts with "."
unfoldable pub without_dot : Bytes → Bytes
without_dot path =
    if has_prefix path (codes ".")
    then trim_prefix (trim_prefix path (codes ".")) (codes "/")
    else path

unfoldable pub normalize_filename : Bytes → Bytes → Bytes
normalize_filename filename [] = filename
normalize_filename filename (d ∷ dir) =
    trim_prefix (trim_prefix (without_dot filename) (without_dot (d ∷ dir))) (codes "/")
