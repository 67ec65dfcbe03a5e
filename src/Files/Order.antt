-- ===== src/Files/Order.antt =====
-- The order of sortAndFilterFilenames of ddl/touch_cmd.go, against its specification.
use sqddl.Base.{
  Bool, true, false, not, ◌&&◌, List, [], ◌∷◌, ◌++◌, ◌≡◌, refl, sym, ap, ◌∙◌, if◌then◌else◌,
  append_assoc, append-nil, Bytes, Bool-cases, inl, inr, arith,
}
use sqddl.Files.{is_left_out, is_repeatable_file, sort_from, sort_and_filter_filenames}

-- The names that pass the test, in order.
abbrev pub those : (Bytes → Bool) → List Bytes → List Bytes
those p [] = []
those p (f ∷ fs) = if p f then f ∷ those p fs else those p fs

abbrev pub is_regular_migration : Bytes → Bool
is_regular_migration f = not (is_left_out f) && not (is_repeatable_file f)

abbrev pub is_repeatable_migration : Bytes → Bool
is_repeatable_migration f = not (is_left_out f) && is_repeatable_file f

sort_from-those :
    (fs result repeatable : List Bytes)
    → sort_from fs result repeatable
      ≡ (result ++ those is_regular_migration fs)
        ++ (repeatable ++ those is_repeatable_migration fs)
unfolding sort_from
sort_from-those [] result repeatable =
    ap (λ l. l ++ repeatable) (sym (append-nil result))
    ∙ ap (λ l. (result ++ []) ++ l) (sym (append-nil repeatable))
sort_from-those (f ∷ fs) result repeatable = elim (Bool-cases (is_left_out f)) [
  | inl out ↦ rw out (sort_from-those fs result repeatable)
  | inr kept ↦ elim (Bool-cases (is_repeatable_file f)) [
    | inl again ↦
        rw (kept, again)
          (sort_from-those fs result (repeatable ++ f ∷ [])
            ∙ ap (λ l. (result ++ those is_regular_migration fs) ++ l)
                (append_assoc repeatable (f ∷ []) (those is_repeatable_migration fs)))
    | inr once ↦
        rw (kept, once)
          (sort_from-those fs (result ++ f ∷ []) repeatable
            ∙ ap (λ l. l ++ (repeatable ++ those is_repeatable_migration fs))
                (append_assoc result (f ∷ []) (those is_regular_migration fs)))
  ]
]

-- sortAndFilterFilenames gives the migrations that are not repeatable, in the order given, and then
-- the repeatable ones, in the order given. A migration ends in .sql but not in .undo.sql and is none
-- of the three scripts of a dump; it is repeatable if it is in the directory `repeatable`.
pub sort_and_filter_filenames-those :
    (fs : List Bytes)
    → sort_and_filter_filenames fs
      ≡ those is_regular_migration fs ++ those is_repeatable_migration fs
unfolding sort_and_filter_filenames
sort_and_filter_filenames-those fs = sort_from-those fs [] []

those-append :
    (p : Bytes → Bool) (fs gs : List Bytes) → those p (fs ++ gs) ≡ those p fs ++ those p gs
those-append p [] gs = refl
those-append p (f ∷ fs) gs = elim (Bool-cases (p f)) [
  | inl has ↦ rw has (ap (λ l. f ∷ l) (those-append p fs gs))
  | inr lacks ↦ rw lacks (those-append p fs gs)
]

those_of_those : (p : Bytes → Bool) (fs : List Bytes) → those p (those p fs) ≡ those p fs
those_of_those p [] = refl
those_of_those p (f ∷ fs) = elim (Bool-cases (p f)) [
  | inl has ↦ rw has (rw has (ap (λ l. f ∷ l) (those_of_those p fs)))
  | inr lacks ↦ rw lacks (those_of_those p fs)
]

those_of_others :
    (p q : Bytes → Bool) (fs : List Bytes)
    → ((f : Bytes) → q f ≡ true → p f ≡ false)
    → those p (those q fs) ≡ []
those_of_others p q [] h = refl
those_of_others p q (f ∷ fs) h = elim (Bool-cases (q f)) [
  | inl has ↦ rw has (rw (h f has) (those_of_others p q fs h))
  | inr lacks ↦ rw lacks (those_of_others p q fs h)
]

sorted_parts :
    (fs : List Bytes)
    → those is_regular_migration (those is_regular_migration fs ++ those is_repeatable_migration fs)
      ≡ those is_regular_migration fs
sorted_parts fs =
    those-append is_regular_migration (those is_regular_migration fs)
      (those is_repeatable_migration fs)
    ∙ rw
        (
          those_of_those is_regular_migration fs,
          those_of_others is_regular_migration is_repeatable_migration fs (λ f h. ground arith),
        )
        (append-nil (those is_regular_migration fs))

repeatable_parts :
    (fs : List Bytes)
    → those is_repeatable_migration
        (those is_regular_migration fs ++ those is_repeatable_migration fs)
      ≡ those is_repeatable_migration fs
repeatable_parts fs =
    those-append is_repeatable_migration (those is_regular_migration fs)
      (those is_repeatable_migration fs)
    ∙ rw
        (
          those_of_those is_repeatable_migration fs,
          those_of_others is_repeatable_migration is_regular_migration fs (λ f h. ground arith),
        )
        refl

-- Sorting and filtering once more changes nothing.
pub sort_and_filter_filenames-again :
    (fs : List Bytes)
    → sort_and_filter_filenames (sort_and_filter_filenames fs) ≡ sort_and_filter_filenames fs
sort_and_filter_filenames-again fs =
    let e = sort_and_filter_filenames-those fs in
    sort_and_filter_filenames-those (sort_and_filter_filenames fs)
    ∙ rw e (rw (sorted_parts fs, repeatable_parts fs) refl)
