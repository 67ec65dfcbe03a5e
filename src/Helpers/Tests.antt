-- ===== src/Helpers/Tests.antt =====
-- Runs of the helpers of ddl/ddl.go, and the theorems at concrete inputs.
use sqddl.Base.{true, List, [], ◌∷◌, some, ◌≡◌, refl, Bytes, codes, text_eq}
use sqddl.Catalog.{primary_key}
use sqddl.Helpers.Names.{column_part, name_suffix, capped, generate_name}
use sqddl.Helpers.Versions.{lower_than, greater_or_equal_to}
use sqddl.Helpers.Arguments.{
  in_string, outside, scan_byte, is_delimiter, find_split, after_split, split_from, split_args,
  joined,
}
use sqddl.Helpers.Split.{IsArgument, nothing, byte, round, inner, split_args-joined}
use sqddl.Base.{All, ◌≢◌}

helpers : Unit {0}
unfolding text_eq column_part name_suffix capped generate_name lower_than greater_or_equal_to
    in_string outside scan_byte is_delimiter find_split after_split split_from split_args
helpers = tt

name_test :
    generate_name primary_key (codes "my table") (codes "id" ∷ []) ≡ codes "my_table_id_pkey"
unfolding helpers
name_test = refl

version_test : lower_than (8 ∷ 4 ∷ []) (8 ∷ 5 ∷ []) ≡ true
unfolding helpers
version_test = refl

split_test :
    split_args (codes "a,f(b,c),'x,''y',[1,2]")
    ≡ some (codes "a" ∷ codes "f(b,c)" ∷ codes "'x,''y'" ∷ codes "[1,2]" ∷ [])
unfolding helpers
split_test = refl

-- a and f(b,c)
abbrev two_arguments : List Bytes
two_arguments = codes "a" ∷ codes "f(b,c)" ∷ []

are_arguments : All IsArgument two_arguments
are_arguments = (
  byte b'a' (refl, refl, refl, refl) nothing,
  (
    byte b'f' (refl, refl, refl, refl)
        (round (inner b'b' refl refl (inner b',' refl refl (inner b'c' refl refl nothing)))
          nothing),
    tt,
  ),
)

not_one_empty : two_arguments ≢ [] ∷ []
not_one_empty e = cc

split_args-joined_example : split_args (joined two_arguments) ≡ some two_arguments
split_args-joined_example = split_args-joined two_arguments are_arguments not_one_empty
