-- ===== src/Helpers/Names.antt =====
-- ddl/ddl.go: GenerateName, for names that are valid UTF-8, of which the loops over runes change the
-- spaces only.
use sqddl.Base.{
  ℕ, zero, suc, sym, ◌+◌, ◌-◌, ◌≤◌, List, [], ◌∷◌, ◌++◌, ◌≡◌, refl, ap, if◌then◌else◌, ◌==◌, ltb,
  length, length-append, take, map, arith, Bytes, codes, text_eq, Bool-cases, inl, inr,
}
use sqddl.Catalog.{primary_key, foreign_key, unique, check, exclude, index}

abbrev pub underscored : Bytes → Bytes
underscored s = map (λ c. if c == b' ' then b'_' else c) s

unfoldable pub column_part : List Bytes → Bytes
column_part [] = []
column_part (c ∷ columns) = b'_' ∷ (underscored c ++ column_part columns)

unfoldable pub name_suffix : Bytes → Bytes
name_suffix type =
    if text_eq type primary_key
    then codes "_pkey"
    else if text_eq type foreign_key
    then codes "_fkey"
    else if text_eq type unique
    then codes "_key"
    else if text_eq type index
    then codes "_idx"
    else if text_eq type check
    then codes "_check"
    else if text_eq type exclude
    then codes "_excl"
    else []

-- what is written for the table and the columns, cut so that the suffix fits into 63 bytes
unfoldable pub capped : Bytes → Bytes → Bytes
capped name suffix =
    if ltb 63 (length name + length suffix)
    then take (length name - (length name + length suffix - 63)) name ++ suffix
    else name ++ suffix

unfoldable pub generate_name : Bytes → Bytes → List Bytes → Bytes
generate_name type table columns =
    capped (underscored table ++ column_part columns) (name_suffix type)

length-take : (n : ℕ) (s : Bytes) → length (take n s) ≤ n
length-take zero s = omega arith
length-take (suc n) [] = omega arith
length-take (suc n) (c ∷ s) = omega (arith, length-take n s)

take_all : (n : ℕ) (s : Bytes) → length s ≤ n → take n s ≡ s
take_all zero [] h = refl
take_all zero (c ∷ s) h = absurd (omega arith)
take_all (suc n) [] h = refl
take_all (suc n) (c ∷ s) h = ap (λ t. c ∷ t) (take_all n s (omega arith))

length-name_suffix : (type : Bytes) → length (name_suffix type) ≤ 6
unfolding name_suffix
length-name_suffix type = ground arith

capped-take :
    (name suffix : Bytes)
    → length suffix ≤ 63
    → capped name suffix ≡ take (63 - length suffix) name ++ suffix
unfolding capped
capped-take name suffix h = elim (Bool-cases (ltb 63 (length name + length suffix))) [
  | inl long ↦ rw long (ap (λ n. take n name ++ suffix) (ground arith))
  | inr short ↦
      rw short (ap (λ s. s ++ suffix) (sym (take_all (63 - length suffix) name (ground arith))))
]

-- GenerateName gives the table's name and the columns' names, joined by underscores and with spaces
-- turned into underscores, cut to what leaves room for the suffix of the type, and then the whole
-- suffix: 63 bytes at most, the limit of Postgres.
pub generate_name-take :
    (type table : Bytes) (columns : List Bytes)
    → (generate_name type table columns
        ≡ take (63 - length (name_suffix type)) (underscored table ++ column_part columns)
          ++ name_suffix type)
      × (length (generate_name type table columns) ≤ 63)
unfolding generate_name
generate_name-take type table columns =
    let suffix = name_suffix type in
    let name = underscored table ++ column_part columns in
    let e = capped-take name suffix (omega (arith, length-name_suffix type)) in
    (
      e,
      rw e (
          omega (
            arith,
            length-append (take (63 - length suffix) name) suffix,
            length-take (63 - length suffix) name,
            length-name_suffix type,
          )),
    )
