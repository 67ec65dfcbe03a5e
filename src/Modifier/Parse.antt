-- ===== src/Modifier/Parse.antt =====
-- ddl/modifier.go: popValue, popModifier, NewModifiers and ParseRawValue.
use sqddl.Base.{
  ℕ, zero, suc, ◌+◌, ◌-◌, Bool, not, ◌&&◌, ◌||◌, List, [], ◌∷◌, ◌++◌, ltb, ◌==◌, if◌then◌else◌,
  length, Bytes, span, trim_left,
}
use sqddl.Modifier.{Modifier, modifier, Modifiers, nil, to_modifiers}

-- The results of popValue and popModifier: `unclosed s` is the error, which quotes `s`; `panicked`
-- is a slice out of bounds.
pub data Pop {ℓ} (A : Type ℓ) : Type ℓ where
  popped : A → (remainder : Bytes) → Pop A
  unclosed : Bytes → Pop A
  panicked : Pop A

-- the new `bracelevel`
unfoldable pub brace_step : Bool → ℕ → ℕ → ℕ
brace_step quoted level c =
    if not quoted
    then level
    else if c == b'{'
    then level + 1
    else if c == b'}'
    then level - 1
    else level

-- The loop of popValue: the bytes before the break, those from it on, and `bracelevel`.
pub record Scan : Type 0 where
  pub value : Bytes
  pub remainder : Bytes
  pub level : ℕ

unfoldable pub scan_value : Bool → ℕ → Bytes → Scan
scan_value quoted level [] = record { value = []; remainder = []; level = level }
scan_value quoted level (c ∷ s) =
    let rest = scan_value quoted (brace_step quoted level c) s in
    if c == b' ' && level == 0
    then record { value = []; remainder = c ∷ s; level = level }
    else record rest { value = c ∷ rest.value }

abbrev pub init : Bytes → Bytes
init [] = []
init (c ∷ []) = []
init (c ∷ d ∷ s) = c ∷ init (d ∷ s)

-- value[1 : len(value)-1]
unfoldable pub unquote : Bytes → Bytes → Pop Bytes
unquote (c ∷ d ∷ s) remainder = popped (init (d ∷ s)) remainder
unquote _ remainder = panicked

-- popValue behind its loop
unfoldable pub finish_value : Bool → Bytes → Scan → Pop Bytes
finish_value quoted s r =
    if ltb 0 r.level
    then unclosed s
    else if quoted
    then unquote r.value r.remainder
    else popped r.value r.remainder

-- popValue behind TrimLeft; `isBraceQuoted` is the test of the first byte
unfoldable pub pop_trimmed : Bytes → Pop Bytes
pop_trimmed [] = popped [] []
pop_trimmed (c ∷ s) = finish_value (c == b'{') (c ∷ s) (scan_value (c == b'{') 0 (c ∷ s))

unfoldable pub pop_value : Bytes → Pop Bytes
pop_value s = pop_trimmed (trim_left s)

abbrev pub prepend : ℕ → List Bytes → List Bytes
prepend c [] = (c ∷ []) ∷ []
prepend c (part ∷ parts) = (c ∷ part) ∷ parts

-- strings.Split(s, ",")
unfoldable pub split_comma : Bytes → List Bytes
split_comma [] = [] ∷ []
split_comma (c ∷ s) = let rest = split_comma s in if c == b',' then [] ∷ rest else prepend c rest

-- A modifier whose name is cut at its first colon; the dialects stand before it.
unfoldable pub cut_name : Bytes → Bytes × Bytes → Bytes → Modifier
cut_name name (before, []) raw = modifier [] name raw [] nil
cut_name name (before, colon ∷ rest) raw = modifier (split_comma before) rest raw [] nil

unfoldable pub split_name : Bytes → Bytes → Modifier
split_name name raw = cut_name name (span (λ c. not (c == b':')) name) raw

abbrev pub with_raw : Bytes → Pop Bytes → Pop Modifier
with_raw name (popped raw rest) = popped (split_name name raw) rest
with_raw name (unclosed s) = unclosed s
with_raw name panicked = panicked

-- popModifier behind the `=`; no value is read if a space follows it
unfoldable pub pop_raw : Bytes → Bytes → Pop Modifier
pop_raw name [] = with_raw name (pop_value [])
pop_raw name (c ∷ s) =
    if c == b' '
    then popped (modifier [] name [] [] nil) (c ∷ s)
    else with_raw name (pop_value (c ∷ s))

-- popModifier behind its loop, which stops at the first space or `=`
unfoldable pub pop_named : Bytes × Bytes → Pop Modifier
pop_named (name, []) = popped (split_name name []) []
pop_named (name, d ∷ rest) =
    if d == b'=' then pop_raw name rest else popped (split_name name []) (d ∷ rest)

abbrev pub is_name_byte : ℕ → Bool
is_name_byte c = not (c == b' ' || c == b'=')

-- popModifier behind TrimLeft
unfoldable pub pop_modifier_trimmed : Bytes → Pop Modifier
pop_modifier_trimmed [] = popped (modifier [] [] [] [] nil) []
pop_modifier_trimmed (c ∷ s) = pop_named (span is_name_byte (c ∷ s))

unfoldable pub pop_modifier : Bytes → Pop Modifier
pop_modifier s = pop_modifier_trimmed (trim_left s)

-- What NewModifiers returns: the modifiers, or those before the error and the error.
pub data Parsed : Type 0 where
  parsed : List Modifier → Parsed
  failed : List Modifier → Bytes → Parsed
  panic : Parsed
  out_of_fuel : Parsed

-- `ms = append(ms, m)`, unless the name is empty
unfoldable pub append_named : List Modifier → Modifier → List Modifier
append_named ms (modifier ds [] raw value subs) = ms
append_named ms (modifier ds (c ∷ name) raw value subs) =
    ms ++ modifier ds (c ∷ name) raw value subs ∷ []

-- A round of NewModifiers on what popModifier returned; `next` is the rounds after it.
abbrev pub parse_round : (List Modifier → Bytes → Parsed) → List Modifier → Pop Modifier → Parsed
parse_round next ms (popped m rest) = next (append_named ms m) rest
parse_round next ms (unclosed t) = failed ms t
parse_round next ms panicked = panic

-- The loop of NewModifiers, with fuel for its rounds.
unfoldable pub new_modifiers_from : ℕ → List Modifier → Bytes → Parsed
new_modifiers_from fuel ms [] = parsed ms
new_modifiers_from zero ms (c ∷ s) = out_of_fuel
new_modifiers_from (suc fuel) ms (c ∷ s) =
    parse_round (new_modifiers_from fuel) ms (pop_modifier (c ∷ s))

-- One round reads a byte or more, so the length is fuel enough.
unfoldable pub new_modifiers : Bytes → Parsed
new_modifiers s = new_modifiers_from (length s) [] s

-- ParseRawValue: the modifier with `Value` and `Submodifiers` set, and the error, if any. On an
-- error of popValue `Value` is the string without its leading spaces, which popValue returns.
pub data Filled : Type 0 where
  filled : Modifier → Filled
  filled_error : Modifier → Bytes → Filled
  fill_panic : Filled
  fill_out_of_fuel : Filled

unfoldable pub with_submodifiers : List Bytes → Bytes → Bytes → Bytes → Parsed → Filled
with_submodifiers ds name raw value (parsed ms) =
    filled (modifier ds name raw value (to_modifiers ms))
with_submodifiers ds name raw value (failed ms s) =
    filled_error (modifier ds name raw value (to_modifiers ms)) s
with_submodifiers ds name raw value panic = fill_panic
with_submodifiers ds name raw value out_of_fuel = fill_out_of_fuel

unfoldable pub with_value : List Bytes → Bytes → Bytes → Modifiers → Pop Bytes → Filled
with_value ds name raw subs (popped value rest) =
    with_submodifiers ds name raw value (new_modifiers rest)
with_value ds name raw subs (unclosed s) = filled_error (modifier ds name raw s subs) s
with_value ds name raw subs panicked = fill_panic

unfoldable pub parse_raw_value : Modifier → Filled
parse_raw_value (modifier ds name [] value subs) = filled (modifier ds name [] value subs)
parse_raw_value (modifier ds name (c ∷ raw) value subs) =
    with_value ds name (c ∷ raw) subs (pop_value (c ∷ raw))
