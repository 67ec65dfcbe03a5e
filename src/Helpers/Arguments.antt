-- ===== src/Helpers/Arguments.antt =====
-- ddl/ddl.go: splitArgs, which splits a text at the commas that are outside of strings, brackets and
-- square brackets.
use sqddl.Base.{
  ℕ, zero, suc, ◌+◌, ◌-◌, ◌<◌, Bool, true, false, not, ◌&&◌, List, [], ◌∷◌, ◌++◌, Option, none,
  some, ◌≡◌, refl, sym, ap, ◌∙◌, if◌then◌else◌, ◌==◌, ltb, length, All, arith, Bytes, Bool-cases,
  Option-cases, inl, inr, some-eq_of_eq, length-append,
}

-- The variables of the inner loop; `skipping` is `skipCharAt == i` at the next byte.
pub record Scanner : Type 0 where
  pub skipping : Bool
  pub array_level : ℕ
  pub bracket_level : ℕ
  pub inside_string : Bool

abbrev pub at_start : Scanner
at_start = record { skipping = false; array_level = 0; bracket_level = 0; inside_string = false }

-- the level behind a byte that is inside
abbrev pub nested : ℕ → ℕ → ℕ → ℕ → ℕ
nested opening closing level c =
    if c == closing then level - 1 else if c == opening then level + 1 else level

abbrev pub apostrophe : ℕ
apostrophe = 39

abbrev pub starts_with_quote : Bytes → Bool
starts_with_quote [] = false
starts_with_quote (c ∷ s) = c == apostrophe

-- behind byte `c` of a string, with `rest` ahead
unfoldable pub in_string : Scanner → ℕ → Bytes → Scanner
in_string sc c rest =
    if c == apostrophe
    then (if starts_with_quote rest
        then record sc { skipping = true }
        else record sc { inside_string = false })
    else sc

-- behind byte `c` that is outside of everything
unfoldable pub outside : Scanner → ℕ → Scanner
outside sc c =
    if c == b'['
    then record sc { array_level = 1 }
    else if c == b'('
    then record sc { bracket_level = 1 }
    else if c == apostrophe
    then record sc { inside_string = true }
    else sc

-- the scanner behind byte `c`, which is no delimiter
unfoldable pub scan_byte : Scanner → ℕ → Bytes → Scanner
scan_byte sc c rest =
    if sc.skipping
    then record sc { skipping = false }
    else if ltb 0 sc.array_level
    then record sc { array_level = nested b'[' b']' sc.array_level c }
    else if ltb 0 sc.bracket_level
    then record sc { bracket_level = nested b'(' b')' sc.bracket_level c }
    else if sc.inside_string
    then in_string sc c rest
    else outside sc c

unfoldable pub is_delimiter : Scanner → ℕ → Bool
is_delimiter sc c =
    not sc.skipping
    && sc.array_level == 0
    && sc.bracket_level == 0
    && not sc.inside_string
    && c == b','

abbrev pub in_front : ℕ → Option (Bytes × Bytes) → Option (Bytes × Bytes)
in_front c none = none
in_front c (some (a, rest)) = some (c ∷ a, rest)

-- the inner loop: the text in front of the first delimiter and the text behind it
unfoldable pub find_split : Scanner → Bytes → Option (Bytes × Bytes)
find_split sc [] = none
find_split sc (c ∷ s) =
    let more = in_front c (find_split (scan_byte sc c s) s) in
    if is_delimiter sc c then some ([], s) else more

abbrev pub add_first : Bytes → Option (List Bytes) → Option (List Bytes)
add_first a none = none
add_first a (some args) = some (a ∷ args)

-- What the outer loop does with a split of `s`; `next` splits the rest.
unfoldable pub after_split :
    (Bytes → Option (List Bytes)) → Bytes → Option (Bytes × Bytes) → Option (List Bytes)
after_split next s none = some (s ∷ [])
after_split next s (some (a, rest)) = add_first a (next rest)

-- The outer loop, on fuel; none is out of fuel.
unfoldable pub split_from : ℕ → Bytes → Option (List Bytes)
split_from zero s = none
split_from (suc fuel) s = after_split (split_from fuel) s (find_split at_start s)

unfoldable pub split_args : Bytes → Option (List Bytes)
split_args [] = some []
split_args (c ∷ s) = split_from (suc (suc (length s))) (c ∷ s)

-- strings.Join(args, ",")
abbrev pub joined : List Bytes → Bytes
joined [] = []
joined (a ∷ []) = a
joined (a ∷ b ∷ args) = a ++ b',' ∷ joined (b ∷ args)

in_front-some :
    (c : ℕ) (o : Option (Bytes × Bytes)) (a rest : Bytes)
    → in_front c o ≡ some (a, rest)
    → (b : Bytes) × (a ≡ c ∷ b) × (o ≡ some (b, rest))
in_front-some c none a rest h = absurd cc
in_front-some c (some (b, r)) a rest h = (b, cc, cc)

is_delimiter-comma : (sc : Scanner) (c : ℕ) → is_delimiter sc c ≡ true → c ≡ b','
unfolding is_delimiter
is_delimiter-comma sc c h = ground arith

-- What a split at the first byte is.
split_here :
    (s a rest : Bytes)
    → ◌≡◌ {A = Option (Bytes × Bytes)} (some ([], s)) (some (a, rest))
    → (a ≡ []) × (s ≡ rest)
split_here s a rest h =
    let e = some-eq_of_eq h in
    (sym (ap (λ (p : Bytes × Bytes). p.0) e), ap (λ (p : Bytes × Bytes). p.1) e)

find_split-joined :
    (sc : Scanner) (s a rest : Bytes) → find_split sc s ≡ some (a, rest) → s ≡ a ++ b',' ∷ rest
unfolding find_split
find_split-joined sc [] a rest h = absurd cc
find_split-joined sc (c ∷ s) a rest h = elim (Bool-cases (is_delimiter sc c)) [
  | inl cut ↦
      let (e, f) = split_here s a rest (rw cut at h) in rw (e, f, is_delimiter-comma sc c cut) refl
  | inr more ↦
      let (b, e, f) = in_front-some c _ a rest (rw more at h) in
      rw e (ap (λ t. c ∷ t) (find_split-joined (scan_byte sc c s) s b rest f))
]

scan_byte_same :
    (sc : Scanner) (c : ℕ) (s t : Bytes)
    → starts_with_quote s ≡ starts_with_quote t
    → scan_byte sc c s ≡ scan_byte sc c t
unfolding scan_byte in_string
scan_byte_same sc c s t e = rw e refl

starts_with_quote-append :
    (a rest : Bytes) → starts_with_quote (a ++ b',' ∷ rest) ≡ starts_with_quote a
starts_with_quote-append [] rest = refl
starts_with_quote-append (c ∷ a) rest = refl

-- The text in front of a delimiter has none.
find_split-whole :
    (sc : Scanner) (s a rest : Bytes) → find_split sc s ≡ some (a, rest) → find_split sc a ≡ none
unfolding find_split
find_split-whole sc [] a rest h = absurd cc
find_split-whole sc (c ∷ s) a rest h = elim (Bool-cases (is_delimiter sc c)) [
  | inl cut ↦ rw (split_here s a rest (rw cut at h)).0 refl
  | inr more ↦
      let (b, e, f) = in_front-some c _ a rest (rw more at h) in
      let same =
        ap starts_with_quote (find_split-joined (scan_byte sc c s) s b rest f)
        ∙ starts_with_quote-append b rest in
      rw e (
        rw more (
          ap (in_front c) (
            ap (λ sc. find_split sc b) (sym (scan_byte_same sc c s b same))
            ∙ find_split-whole (scan_byte sc c s) s b rest f)))
]

-- The arguments of `s` are `a ∷ args`: they give `s` when they are joined, and none has a delimiter.
abbrev pub AreArguments : Bytes → List Bytes → Type 0
AreArguments s args = (joined args ≡ s) × All (λ a. find_split at_start a ≡ none) args

split_from-AreArguments :
    (fuel : ℕ) (s : Bytes)
    → length s < fuel
    → (a : Bytes) × (args : List Bytes) × (split_from fuel s ≡ some (a ∷ args))
      × AreArguments s (a ∷ args)
unfolding split_from after_split
split_from-AreArguments zero s h = absurd (omega arith)
split_from-AreArguments (suc fuel) s h = elim (Option-cases (find_split at_start s)) [
  | inl whole ↦ (s, [], rw whole refl, (refl, (whole, tt)))
  | inr ((a, rest), e) ↦
      let text = find_split-joined at_start s a rest e in
      let size = length-append a (b',' ∷ rest) in
      let (b, args, f, (j, w)) =
        split_from-AreArguments fuel rest (omega (arith, ap length text, size)) in
      (
        a,
        b ∷ args,
        rw e (rw f refl),
        (ap (λ t. a ++ b',' ∷ t) j ∙ sym text, (find_split-whole at_start s a rest e, w)),
      )
]

-- splitArgs gives the parts of a text between its delimiters: joined by commas they are the text,
-- and no part has a delimiter of its own. The loop ends: each round that goes on takes a comma off.
pub split_args-AreArguments :
    (s : Bytes) → (args : List Bytes) × (split_args s ≡ some args) × AreArguments s args
unfolding split_args
split_args-AreArguments [] = ([], refl, (refl, tt))
split_args-AreArguments (c ∷ s) =
    let (a, args, e, p) = split_from-AreArguments (suc (suc (length s))) (c ∷ s) (omega arith) in
    (a ∷ args, e, p)
