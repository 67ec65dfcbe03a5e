-- ===== src/Helpers/Literals.antt =====
-- ddl/ddl.go: isLiteral. What strconv.ParseInt accepts strconv.ParseFloat accepts too; of the texts
-- that this accepts, hexadecimal ones are left out, and numbers out of its range are not refused.
use sqddl.Base.{
  ℕ, ◌+◌, Bool, true, false, not, ◌&&◌, ◌||◌, List, [], ◌∷◌, if◌then◌else◌, ltb, ◌==◌, Bytes, codes,
  span, length,
}
use sqddl.Helpers.Brackets.{to_upper, ends_in}
use sqddl.Helpers.Numbers.{is_decimal}
use sqddl.Sql.Quote.{is_among}

-- 'text'
unfoldable pub is_string_literal : Bytes → Bool
is_string_literal [] = false
is_string_literal (c ∷ []) = false
is_string_literal (c ∷ d ∷ s) = c == 39 && ends_in 39 (d ∷ s)

abbrev pub without_sign : Bytes → Bytes
without_sign [] = []
without_sign (c ∷ s) = if c == b'+' || c == b'-' then s else c ∷ s

abbrev pub is_nothing : Bytes → Bool
is_nothing [] = true
is_nothing (c ∷ s) = false

-- digits, and nothing behind them
unfoldable pub all_digits : Bytes → Bool
all_digits s = not (is_nothing s) && is_nothing (span is_decimal s).1

-- an exponent, or nothing
unfoldable pub is_exponent : Bytes → Bool
is_exponent [] = true
is_exponent (c ∷ s) = (c == b'e' || c == b'E') && all_digits (without_sign s)

-- what stands behind the digits in front of the point, of which there are `count`
unfoldable pub is_fraction : ℕ → Bytes → Bool
is_fraction count [] = ltb 0 count
is_fraction count (c ∷ s) =
    let (digits, rest) = span is_decimal s in
    if c == b'.'
    then ltb 0 (count + length digits) && is_exponent rest
    else ltb 0 count && is_exponent (c ∷ s)

unfoldable pub is_number : Bytes → Bool
is_number s = let (digits, rest) = span is_decimal s in is_fraction (length digits) rest

unfoldable pub is_float_literal : Bytes → Bool
is_float_literal s =
    is_number (without_sign s)
    || is_among (codes "INF" ∷ codes "INFINITY" ∷ codes "NAN" ∷ []) (to_upper (without_sign s))

abbrev pub known_literals : List Bytes
known_literals =
    codes "TRUE"
    ∷ codes "FALSE"
    ∷ codes "CURRENT_DATE"
    ∷ codes "CURRENT_TIME"
    ∷ codes "CURRENT_TIMESTAMP"
    ∷ codes "NULL"
    ∷ []

unfoldable pub is_literal : Bytes → Bool
is_literal s = is_string_literal s || (is_among known_literals (to_upper s) || is_float_literal s)
