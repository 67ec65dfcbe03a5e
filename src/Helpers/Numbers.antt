-- ===== src/Helpers/Numbers.antt =====
-- The functions of Go's packages strconv and fmt that the migrations call: Atoi, and %02d and %q.
use sqddl.Base.{
  ℕ, zero, suc, ◌+◌, ◌-◌, ◌*◌, ◌/◌, ◌%◌, ◌^◌, ◌<◌, Bool, ◌&&◌, ◌||◌, [], ◌∷◌, ◌++◌, Option, none,
  some, ◌≡◌, refl, ltb, leb, ◌==◌, if◌then◌else◌, min, arith, Bytes, codes, Bool-cases, inl, inr,
}

-- The digits of a number in front of `rest`, on fuel.
unfoldable pub digits : ℕ → ℕ → Bytes → Bytes
digits zero n rest = rest
digits (suc fuel) n rest =
    let more = digits fuel (n / 10) ((48 + n % 10) ∷ rest) in
    if ltb n 10 then (48 + n) ∷ rest else more

-- Any fuel above the number gives the same digits.
pub digits-fuel :
    (fuel other n : ℕ) (rest : Bytes)
    → n < fuel
    → n < other
    → digits fuel n rest ≡ digits other n rest
unfolding digits
digits-fuel zero other n rest h k = absurd (omega arith)
digits-fuel (suc fuel) zero n rest h k = absurd (omega arith)
digits-fuel (suc fuel) (suc other) n rest h k = elim (Bool-cases (ltb n 10)) [
  | inl last ↦ rw last refl
  | inr more ↦
      rw more (digits-fuel fuel other (n / 10) ((48 + n % 10) ∷ rest) (ground arith) (ground arith))
]

-- %02d
unfoldable pub two_digits : ℕ → Bytes
two_digits n = if ltb n 10 then b'0' ∷ digits (n + 1) n [] else digits (n + 1) n []

abbrev pub is_decimal : ℕ → Bool
is_decimal c = leb b'0' c && leb c b'9'

-- the value of a text of digits behind `value`
unfoldable pub digits_value : ℕ → Bytes → Option ℕ
digits_value value [] = some value
digits_value value (c ∷ s) =
    let rest = digits_value (value * 10 + (c - 48)) s in if is_decimal c then rest else none

abbrev pub nonempty_value : Bytes → Option ℕ
nonempty_value [] = none
nonempty_value (c ∷ s) = digits_value 0 (c ∷ s)

abbrev pub clamped : Option ℕ → ℕ
clamped none = 0
clamped (some n) = min n (2 ^ 63 - 1)

-- The number that strconv.Atoi returns beside its error, where a negative one counts as 0: 0 for
-- what is no number, and the greatest int for one that is too great.
unfoldable pub atoi : Bytes → ℕ
atoi [] = 0
atoi (c ∷ s) =
    if c == b'-'
    then 0
    else if c == b'+'
    then clamped (nonempty_value s)
    else clamped (nonempty_value (c ∷ s))

abbrev pub clamped_below : Option ℕ → ℕ
clamped_below none = 0
clamped_below (some n) = min n (2 ^ 63)

-- how far below 0 that number is
unfoldable pub negative_atoi : Bytes → ℕ
negative_atoi [] = 0
negative_atoi (c ∷ s) = if c == b'-' then clamped_below (nonempty_value s) else 0

abbrev pub hex_digit : ℕ → ℕ
hex_digit n = if ltb n 10 then 48 + n else 87 + n

-- a byte inside %q
unfoldable pub quoted_byte : ℕ → Bytes
quoted_byte c =
    if c == b'"' || c == b'\\'
    then b'\\' ∷ c ∷ []
    else if c == 7
    then codes "\\a"
    else if c == 8
    then codes "\\b"
    else if c == 9
    then codes "\\t"
    else if c == 10
    then codes "\\n"
    else if c == 11
    then codes "\\v"
    else if c == 12
    then codes "\\f"
    else if c == 13
    then codes "\\r"
    else if ltb c 32 || c == 127
    then b'\\' ∷ b'x' ∷ hex_digit (c / 16) ∷ hex_digit (c % 16) ∷ []
    else c ∷ []

unfoldable pub quoted_bytes : Bytes → Bytes
quoted_bytes [] = []
quoted_bytes (c ∷ s) = quoted_byte c ++ quoted_bytes s

-- %q, for text whose runes outside of ASCII are printable
unfoldable pub go_quote : Bytes → Bytes
go_quote s = b'"' ∷ (quoted_bytes s ++ b'"' ∷ [])
