-- ===== src/Helpers/Split.antt =====
-- splitArgs of ddl/ddl.go against a grammar of arguments.
use sqddl.Base.{
  ℕ, zero, suc, ◌<◌, Bool, true, false, List, [], ◌∷◌, ◌++◌, Option, none, some, ◌≡◌, ◌≢◌, refl,
  sym, ap, ◌∙◌, ◌==◌, ltb, length, All, arith, Bytes, length-append, append_assoc, append-nil,
}
use sqddl.Helpers.Arguments.{
  Scanner, at_start, nested, starts_with_quote, in_string, outside, scan_byte, is_delimiter,
  in_front, find_split, add_first, after_split, split_from, split_args, joined,
}

-- The text between two brackets: other brackets in it are matched.
pub data Inside (opening closing : ℕ) : Bytes → Type 0 where
  nothing : Inside opening closing []
  inner :
      {t : Bytes} (b : ℕ)
      → (b == opening) ≡ false
      → (b == closing) ≡ false
      → Inside opening closing t
      → Inside opening closing (b ∷ t)
  matched :
      {t u : Bytes}
      → Inside opening closing t
      → Inside opening closing u
      → Inside opening closing (opening ∷ (t ++ closing ∷ u))

-- The text between two apostrophes: one in it is doubled.
pub data InString : Bytes → Type 0 where
  nothing : InString []
  inner : {t : Bytes} (b : ℕ) → (b == 39) ≡ false → InString t → InString (b ∷ t)
  doubled : {t : Bytes} → InString t → InString (39 ∷ 39 ∷ t)

-- No comma, round or square bracket or apostrophe.
abbrev pub IsPlainByte : ℕ → Type 0
IsPlainByte b =
    ((b == 44) ≡ false) × ((b == 91) ≡ false) × ((b == 40) ≡ false) × ((b == 39) ≡ false)

-- An argument: commas stand only inside of brackets and strings.
pub data IsArgument : Bytes → Type 0 where
  nothing : IsArgument []
  byte : {t : Bytes} (b : ℕ) → IsPlainByte b → IsArgument t → IsArgument (b ∷ t)
  round : {t u : Bytes} → Inside 40 41 t → IsArgument u → IsArgument (40 ∷ (t ++ 41 ∷ u))
  square : {t u : Bytes} → Inside 91 93 t → IsArgument u → IsArgument (91 ∷ (t ++ 93 ∷ u))
  quoted :
      {t u : Bytes}
      → InString t
      → starts_with_quote u ≡ false
      → IsArgument u
      → IsArgument (39 ∷ (t ++ 39 ∷ u))

abbrev all_in_front : Bytes → Option (Bytes × Bytes) → Option (Bytes × Bytes)
all_in_front [] o = o
all_in_front (c ∷ t) o = in_front c (all_in_front t o)

all_in_front-append :
    (t u : Bytes) (o : Option (Bytes × Bytes))
    → all_in_front (t ++ u) o ≡ all_in_front t (all_in_front u o)
all_in_front-append [] u o = refl
all_in_front-append (c ∷ t) u o = ap (in_front c) (all_in_front-append t u o)

one_byte :
    (sc : Scanner) (b : ℕ) (s : Bytes)
    → is_delimiter sc b ≡ false
    → find_split sc (b ∷ s) ≡ in_front b (find_split (scan_byte sc b s) s)
unfolding find_split
one_byte sc b s e = rw e refl

-- A kind of bracket: how the scanner stands at a level, and what it does with a byte there.
module _ (o c : ℕ) (level : ℕ → Scanner)
    (step : (n b : ℕ) (s : Bytes)
      → find_split (level (suc n)) (b ∷ s)
        ≡ in_front b (find_split (level (nested o c (suc n) b)) s))
    (apart : (o == c) ≡ false) where
  bracket_split :
      (n : ℕ) (t u : Bytes)
      → Inside o c t
      → find_split (level (suc n)) (t ++ u) ≡ all_in_front t (find_split (level (suc n)) u)
  bracket_split n _ u nothing = refl
  bracket_split n _ u (inner {t = t} b not_open not_close i) =
      let stays : nested o c (suc n) b ≡ suc n = rw (not_close, not_open) refl in
      step n b (t ++ u) ∙ rw stays (ap (in_front b) (bracket_split n t u i))
  bracket_split n _ u (matched {t = t} {u = v} i j) =
      let up : nested o c (suc n) o ≡ suc (suc n) = ground arith in
      let down : nested o c (suc (suc n)) c ≡ suc n = ground arith in
      step n o ((t ++ c ∷ v) ++ u)
      ∙ rw up (
          ap (in_front o) (
            ap (find_split (level (suc (suc n)))) (append_assoc t (c ∷ v) u)
            ∙ bracket_split (suc n) t (c ∷ (v ++ u)) i
            ∙ ap (all_in_front t)
                (step (suc n) c (v ++ u) ∙ rw down (ap (in_front c) (bracket_split n v u j)))
            ∙ sym (all_in_front-append t (c ∷ v) (find_split (level (suc n)) u))))

abbrev in_round : ℕ → Scanner
in_round n = record at_start { bracket_level = n }

abbrev in_square : ℕ → Scanner
in_square n = record at_start { array_level = n }

round_step :
    (n b : ℕ) (s : Bytes)
    → find_split (in_round (suc n)) (b ∷ s)
      ≡ in_front b (find_split (in_round (nested 40 41 (suc n) b)) s)
unfolding is_delimiter scan_byte
round_step n b s =
    let deep : ltb 0 (suc n) ≡ true = ground arith in
    one_byte (in_round (suc n)) b s (ground arith)
    ∙ ap (λ sc. in_front b (find_split sc s)) (rw deep refl)

square_step :
    (n b : ℕ) (s : Bytes)
    → find_split (in_square (suc n)) (b ∷ s)
      ≡ in_front b (find_split (in_square (nested 91 93 (suc n) b)) s)
unfolding is_delimiter scan_byte
square_step n b s =
    let deep : ltb 0 (suc n) ≡ true = ground arith in
    one_byte (in_square (suc n)) b s (ground arith)
    ∙ ap (λ sc. in_front b (find_split sc s)) (rw deep refl)

abbrev in_text : Bool → Scanner
in_text skipping = record at_start { skipping = skipping; inside_string = true }

string_split :
    (t u : Bytes)
    → InString t
    → starts_with_quote u ≡ false
    → find_split (in_text false) (t ++ 39 ∷ u)
      ≡ all_in_front t (in_front 39 (find_split at_start u))
unfolding is_delimiter scan_byte in_string
string_split _ u nothing ends = one_byte (in_text false) 39 u refl ∙ rw ends refl
string_split _ u (inner {t = t} b other i) ends =
    one_byte (in_text false) b (t ++ 39 ∷ u) refl
    ∙ rw other (ap (in_front b) (string_split t u i ends))
string_split _ u (doubled {t = t} i) ends =
    one_byte (in_text false) 39 (39 ∷ (t ++ 39 ∷ u)) refl
    ∙ ap (in_front 39)
        (one_byte (in_text true) 39 (t ++ 39 ∷ u) refl ∙ ap (in_front 39) (string_split t u i ends))

starts_with_quote-append :
    (t u : Bytes)
    → starts_with_quote t ≡ false
    → starts_with_quote u ≡ false
    → starts_with_quote (t ++ u) ≡ false
starts_with_quote-append [] u h k = k
starts_with_quote-append (c ∷ t) u h k = h

-- The text behind an argument starts with no apostrophe.
argument_split :
    (a u : Bytes)
    → IsArgument a
    → starts_with_quote u ≡ false
    → find_split at_start (a ++ u) ≡ all_in_front a (find_split at_start u)
unfolding is_delimiter scan_byte outside
argument_split _ u nothing ends = refl
argument_split _ u (byte {t = t} b (no_comma, no_square, no_round, no_quote) i) ends =
    one_byte at_start b (t ++ u) (rw no_comma refl)
    ∙ rw (no_square, no_round, no_quote) (ap (in_front b) (argument_split t u i ends))
argument_split _ u (round {t = t} {u = v} i j) ends =
    one_byte at_start 40 ((t ++ 41 ∷ v) ++ u) refl
    ∙ ap (in_front 40) (
        ap (find_split (in_round 1)) (append_assoc t (41 ∷ v) u)
        ∙ bracket_split 40 41 in_round round_step refl 0 t (41 ∷ (v ++ u)) i
        ∙ ap (all_in_front t)
            (round_step 0 41 (v ++ u) ∙ ap (in_front 41) (argument_split v u j ends))
        ∙ sym (all_in_front-append t (41 ∷ v) (find_split at_start u)))
argument_split _ u (square {t = t} {u = v} i j) ends =
    one_byte at_start 91 ((t ++ 93 ∷ v) ++ u) refl
    ∙ ap (in_front 91) (
        ap (find_split (in_square 1)) (append_assoc t (93 ∷ v) u)
        ∙ bracket_split 91 93 in_square square_step refl 0 t (93 ∷ (v ++ u)) i
        ∙ ap (all_in_front t)
            (square_step 0 93 (v ++ u) ∙ ap (in_front 93) (argument_split v u j ends))
        ∙ sym (all_in_front-append t (93 ∷ v) (find_split at_start u)))
argument_split _ u (quoted {t = t} {u = v} i apart j) ends =
    one_byte at_start 39 ((t ++ 39 ∷ v) ++ u) refl
    ∙ ap (in_front 39) (
        ap (find_split (in_text false)) (append_assoc t (39 ∷ v) u)
        ∙ string_split t (v ++ u) i (starts_with_quote-append v u apart ends)
        ∙ ap (λ o. all_in_front t (in_front 39 o)) (argument_split v u j ends)
        ∙ sym (all_in_front-append t (39 ∷ v) (find_split at_start u)))

all_in_front-none : (a : Bytes) → all_in_front a none ≡ none
all_in_front-none [] = refl
all_in_front-none (c ∷ a) = ap (in_front c) (all_in_front-none a)

all_in_front-some : (a b rest : Bytes) → all_in_front a (some (b, rest)) ≡ some (a ++ b, rest)
all_in_front-some [] b rest = refl
all_in_front-some (c ∷ a) b rest = ap (in_front c) (all_in_front-some a b rest)

last_argument : (a : Bytes) → IsArgument a → find_split at_start a ≡ none
unfolding find_split
last_argument a i =
    ap (find_split at_start) (sym (append-nil a)) ∙ argument_split a [] i refl ∙ all_in_front-none a

first_argument :
    (a rest : Bytes) → IsArgument a → find_split at_start (a ++ 44 ∷ rest) ≡ some (a, rest)
unfolding find_split is_delimiter
first_argument a rest i =
    argument_split a (44 ∷ rest) i refl
    ∙ all_in_front-some a [] rest
    ∙ ap (λ a. some (a, rest)) (append-nil a)

split_from-joined :
    (fuel : ℕ) (a : Bytes) (args : List Bytes)
    → All IsArgument (a ∷ args)
    → length (joined (a ∷ args)) < fuel
    → split_from fuel (joined (a ∷ args)) ≡ some (a ∷ args)
unfolding split_from after_split
split_from-joined zero a args h lt = absurd (omega arith)
split_from-joined (suc fuel) a [] (i, h) lt = rw (last_argument a i) refl
split_from-joined (suc fuel) a (b ∷ args) (i, h) lt = rw (first_argument a (joined (b ∷ args)) i) (
    ap (add_first a) (
      split_from-joined fuel b args h
        (omega (arith, lt, length-append a (44 ∷ joined (b ∷ args))))))

split_args-nonempty :
    (s : Bytes) → s ≢ [] → (fuel : ℕ) × (length s < fuel) × (split_args s ≡ split_from fuel s)
unfolding split_args
split_args-nonempty [] ne = absurd (ne refl)
split_args-nonempty (c ∷ s) ne = (suc (suc (length s)), omega arith, refl)

joined-ne : (a b : Bytes) (args : List Bytes) → joined (a ∷ b ∷ args) ≢ []
joined-ne [] b args e = cc
joined-ne (c ∷ a) b args e = cc

-- splitArgs takes apart what commas join: for any arguments it gives them back, in order, where in
-- each of them brackets of one kind are matched, strings are closed, a quote in a string is doubled,
-- no string stands directly behind another, and commas stand only inside of brackets and strings.
-- Empty arguments are given back too, but one that is alone.
pub split_args-joined :
    (args : List Bytes)
    → All IsArgument args
    → args ≢ [] ∷ []
    → split_args (joined args) ≡ some args
split_args-joined [] h ne = unfold split_args in refl
split_args-joined ([] ∷ []) h ne = absurd (ne refl)
split_args-joined ((c ∷ a) ∷ []) h ne =
    let (fuel, enough, e) = split_args-nonempty (c ∷ a) (λ e. cc) in
    e ∙ split_from-joined fuel (c ∷ a) [] h enough
split_args-joined (a ∷ b ∷ args) h ne =
    let (fuel, enough, e) = split_args-nonempty (joined (a ∷ b ∷ args)) (joined-ne a b args) in
    e ∙ split_from-joined fuel a (b ∷ args) h enough
