-- ===== src/Files/Filtered.antt =====
-- What sortAndFilterFilenames of ddl/touch_cmd.go keeps, said without its tests.
use sqddl.Base.{
  Bool, true, false, List, [], ◌∷◌, ◌++◌, ◌≡◌, ◌⊎◌, inl, inr, refl, sym, ap, ◌∙◌, Bytes, codes,
  Bool-cases, text_eq, text_eq_iff, has_suffix, has_prefix, ==_iff, arith, false≢true,
}
use sqddl.Files.{base_of, is_reserved, is_left_out, is_repeatable_file, sort_and_filter_filenames}
use sqddl.Files.Order.{
  those, is_regular_migration, is_repeatable_migration, sort_and_filter_filenames-those,
}

abbrev pub EndsIn : Bytes → Bytes → Type 0
EndsIn suffix f = (p : Bytes) × (f ≡ p ++ suffix)

abbrev pub StartsWith : Bytes → Bytes → Type 0
StartsWith prefix f = (p : Bytes) × (f ≡ prefix ++ p)

-- one of the scripts that a dump writes
abbrev pub IsScript : Bytes → Type 0
IsScript f =
    (base_of f ≡ codes "schema.sql")
    ⊎ ((base_of f ≡ codes "indexes.sql") ⊎ (base_of f ≡ codes "constraints.sql"))

abbrev pub IsMigration : Bytes → Type 0
IsMigration f = EndsIn (codes ".sql") f × (EndsIn (codes ".undo.sql") f → ⊥) × (IsScript f → ⊥)

abbrev pub IsRegular : Bytes → Type 0
IsRegular f = IsMigration f × (StartsWith (codes "repeatable/") f → ⊥)

abbrev pub IsRepeatable : Bytes → Type 0
IsRepeatable f = IsMigration f × StartsWith (codes "repeatable/") f

-- The second list has the items of the first that satisfy `P`, in order.
pub data Filters {ℓ κ} {A : Type ℓ} (P : A → Type κ) : List A → List A → Type (ℓ ⊔ κ) where
  ends : Filters P [] []
  takes : {x : A} {xs ys : List A} → P x → Filters P xs ys → Filters P (x ∷ xs) (x ∷ ys)
  skips : {x : A} {xs ys : List A} → (P x → ⊥) → Filters P xs ys → Filters P (x ∷ xs) ys

has_suffix-EndsIn : (s suffix : Bytes) → has_suffix s suffix ≡ true → EndsIn suffix s
unfolding has_suffix
has_suffix-EndsIn [] suffix h = ([], (text_eq_iff [] suffix).0 h)
has_suffix-EndsIn (c ∷ s) suffix h = elim (Bool-cases (text_eq (c ∷ s) suffix)) [
  | inl same ↦ ([], (text_eq_iff (c ∷ s) suffix).0 same)
  | inr other ↦ let (p, e) = has_suffix-EndsIn s suffix (ground arith) in (c ∷ p, ap (λ t. c ∷ t) e)
]

has_suffix-append : (p suffix : Bytes) → has_suffix (p ++ suffix) suffix ≡ true
unfolding has_suffix text_eq
has_suffix-append [] [] = refl
has_suffix-append [] (c ∷ suffix) = rw ((text_eq_iff (c ∷ suffix) (c ∷ suffix)).1 refl) refl
has_suffix-append (c ∷ p) suffix = ground (arith, has_suffix-append p suffix)

has_prefix-StartsWith : (s prefix : Bytes) → has_prefix s prefix ≡ true → StartsWith prefix s
unfolding has_prefix
has_prefix-StartsWith s [] h = (s, refl)
has_prefix-StartsWith [] (p ∷ ps) h = absurd (false≢true h)
has_prefix-StartsWith (c ∷ s) (p ∷ ps) h =
    let (rest, e) = has_prefix-StartsWith s ps (ground arith) in
    let same : c ≡ p = ground arith in (rest, ap (λ t. c ∷ t) e ∙ ap (λ d. d ∷ (ps ++ rest)) same)

has_prefix-append : (prefix p : Bytes) → has_prefix (prefix ++ p) prefix ≡ true
unfolding has_prefix
has_prefix-append [] p = refl
has_prefix-append (c ∷ prefix) p = rw ((==_iff c c).1 refl) (has_prefix-append prefix p)

is_reserved-IsScript : (f : Bytes) → is_reserved (base_of f) ≡ true → IsScript f
is_reserved-IsScript f h = elim (Bool-cases (text_eq (base_of f) (codes "schema.sql"))) [
  | inl schema ↦ inl ((text_eq_iff _ _).0 schema)
  | inr a ↦ elim (Bool-cases (text_eq (base_of f) (codes "indexes.sql"))) [
    | inl indexes ↦ inr (inl ((text_eq_iff _ _).0 indexes))
    | inr b ↦ inr (inr ((text_eq_iff _ _).0 (rw (a, b) at h)))
  ]
]

IsScript-is_reserved : (f : Bytes) → IsScript f → is_reserved (base_of f) ≡ true
IsScript-is_reserved f (inl e) = ground (arith, (text_eq_iff _ _).1 e)
IsScript-is_reserved f (inr (inl e)) = ground (arith, (text_eq_iff _ _).1 e)
IsScript-is_reserved f (inr (inr e)) = ground (arith, (text_eq_iff _ _).1 e)

opposite : (b : Bool) → b ≡ true → b ≡ false → ⊥
opposite b p q = false≢true (sym q ∙ p)

is_left_out-kept : (f : Bytes) → is_left_out f ≡ false → IsMigration f
unfolding is_left_out
is_left_out-kept f h = (
  has_suffix-EndsIn f (codes ".sql") (ground arith),
  λ (p, e).
      opposite (has_suffix f (codes ".undo.sql"))
        (ap (λ f. has_suffix f (codes ".undo.sql")) e ∙ has_suffix-append p (codes ".undo.sql"))
        (ground arith),
  λ script. opposite (is_reserved (base_of f)) (IsScript-is_reserved f script) (ground arith),
)

is_left_out-no_migration : (f : Bytes) → is_left_out f ≡ true → IsMigration f → ⊥
unfolding is_left_out
is_left_out-no_migration f h ((p, e), not_undo, not_script) =
    let sql = ap (λ f. has_suffix f (codes ".sql")) e ∙ has_suffix-append p (codes ".sql") in
    elim (Bool-cases (has_suffix f (codes ".undo.sql"))) [
      | inl undo ↦ not_undo (has_suffix-EndsIn f (codes ".undo.sql") undo)
      | inr other ↦ not_script (is_reserved-IsScript f (rw (sql, other) at h))
    ]

those-Filters :
    (P : Bytes → Type 0) (p : Bytes → Bool)
    → ((f : Bytes) → p f ≡ true → P f)
    → ((f : Bytes) → p f ≡ false → P f → ⊥)
    → (fs : List Bytes) → Filters P fs (those p fs)
those-Filters P p sound complete [] = ends
those-Filters P p sound complete (f ∷ fs) = elim (Bool-cases (p f)) [
  | inl has ↦ rw has (takes (sound f has) (those-Filters P p sound complete fs))
  | inr lacks ↦ rw lacks (skips (complete f lacks) (those-Filters P p sound complete fs))
]

is_repeatable_file-StartsWith :
    (f : Bytes) → is_repeatable_file f ≡ true → StartsWith (codes "repeatable/") f
unfolding is_repeatable_file
is_repeatable_file-StartsWith f h = has_prefix-StartsWith f (codes "repeatable/") h

not_repeatable : (f : Bytes) → is_repeatable_file f ≡ false → StartsWith (codes "repeatable/") f → ⊥
unfolding is_repeatable_file
not_repeatable f h (p, e) =
    opposite (has_prefix f (codes "repeatable/"))
      (ap (λ f. has_prefix f (codes "repeatable/")) e ∙ has_prefix-append (codes "repeatable/") p) h

regular : (fs : List Bytes) → Filters IsRegular fs (those is_regular_migration fs)
regular =
    those-Filters IsRegular is_regular_migration
      (λ f h. (is_left_out-kept f (ground arith), not_repeatable f (ground arith)))
      (λ f h m. elim (Bool-cases (is_left_out f)) [
        | inl out ↦ is_left_out-no_migration f out m.0
        | inr kept ↦ m.1 (is_repeatable_file-StartsWith f (ground arith))
      ])

repeatable : (fs : List Bytes) → Filters IsRepeatable fs (those is_repeatable_migration fs)
repeatable =
    those-Filters IsRepeatable is_repeatable_migration
      (λ f h. (is_left_out-kept f (ground arith), is_repeatable_file-StartsWith f (ground arith)))
      (λ f h m. elim (Bool-cases (is_left_out f)) [
        | inl out ↦ is_left_out-no_migration f out m.0
        | inr kept ↦ not_repeatable f (ground arith) m.1
      ])

-- sortAndFilterFilenames gives the migrations that are not repeatable, all of them and in the order
-- given, and then the repeatable ones, all of them and in the order given. A migration ends in .sql
-- but not in .undo.sql, and its base name is not that of one of the three scripts of a dump; it is
-- repeatable if its path starts with repeatable/.
pub sort_and_filter_filenames-Filters :
    (fs : List Bytes)
    → (once : List Bytes) × (again : List Bytes) × (sort_and_filter_filenames fs ≡ once ++ again)
      × Filters IsRegular fs once
      × Filters IsRepeatable fs again
sort_and_filter_filenames-Filters fs = (
  those is_regular_migration fs,
  those is_repeatable_migration fs,
  sort_and_filter_filenames-those fs,
  regular fs,
  repeatable fs,
)
