-- ===== src/Modifier/Totality.antt =====
-- The parser of modifiers ends: each round reads a byte, and no slice is out of bounds.
use sqddl.Base.{
  ℕ, zero, suc, ◌+◌, ◌≤◌, ◌<◌, Bool, true, false, List, [], ◌∷◌, ◌≡◌, ◌⊎◌, inl, inr, refl, ◌==◌,
  ltb, Bool-cases, length, Bytes, span, trim_left, arith,
}
use sqddl.Modifier.{Modifier}
use sqddl.Modifier.Parse.{
  Pop, popped, unclosed, panicked, brace_step, Scan, scan_value, unquote, finish_value, pop_trimmed,
  pop_value, with_raw, pop_raw, pop_named, is_name_byte, pop_modifier_trimmed, pop_modifier, Parsed,
  parsed, failed, append_named, parse_round, new_modifiers_from, new_modifiers,
}

pub length-trim_left : (s : Bytes) → length (trim_left s) ≤ length s
unfolding trim_left
length-trim_left [] = omega arith
length-trim_left (c ∷ s) = ground (arith, length-trim_left s)

pub length-span : (p : ℕ → Bool) (s : Bytes) → length (span p s).0 + length (span p s).1 ≡ length s
unfolding span
length-span p [] = omega arith
length-span p (c ∷ s) = ground (arith, length-span p s)

pub trim_left-head : (s : Bytes) {c : ℕ} {t : Bytes} → trim_left s ≡ c ∷ t → (c == b' ') ≡ false
unfolding trim_left
trim_left-head [] e = cc
trim_left-head (d ∷ s) {c} e = elim (Bool-cases (d == b' ')) [
  | inl blank ↦ trim_left-head s (rw blank at e)
  | inr other ↦ ground arith
]

length-scan_value :
    (quoted : Bool) (level : ℕ) (s : Bytes)
    → length (scan_value quoted level s).value + length (scan_value quoted level s).remainder
      ≡ length s
unfolding scan_value
length-scan_value quoted level [] = omega arith
length-scan_value quoted level (c ∷ s) =
    ground (arith, length-scan_value quoted (brace_step quoted level c) s)

-- Inside braces the loop does not break before a byte is read.
scan_value-nonempty :
    (quoted : Bool) (level : ℕ) (s : Bytes)
    → 0 < level
    → (scan_value quoted level s).level ≡ 0
    → (d : ℕ) × (v : Bytes) × ((scan_value quoted level s).value ≡ d ∷ v)
unfolding scan_value
scan_value-nonempty quoted level [] h e = absurd (omega arith)
scan_value-nonempty quoted level (c ∷ s) h e =
    (c, (scan_value quoted (brace_step quoted level c) s).value, ground arith)

-- A value that is popped is no longer than the string, and no slice is out of bounds.
abbrev pub Shortens {ℓ} : {A : Type ℓ} → ℕ → Pop A → Type 0
Shortens n (popped a rest) = length rest ≤ n
Shortens n (unclosed s) = Unit
Shortens n panicked = ⊥

unquote-Shortens :
    (value rest : Bytes) {n : ℕ} {c d : ℕ} {v : Bytes}
    → value ≡ c ∷ d ∷ v
    → length rest ≤ n
    → Shortens n (unquote value rest)
unfolding unquote
unquote-Shortens value rest e h = rw e h

abbrev HasTwo : Bytes → Type 0
HasTwo v = (c : ℕ) × (d : ℕ) × (rest : Bytes) × (v ≡ c ∷ d ∷ rest)

finish_value-Shortens :
    (quoted : Bool) (s : Bytes) (r : Scan) {n : ℕ}
    → length r.remainder ≤ n
    → (quoted ≡ true → r.level ≡ 0 → HasTwo r.value)
    → Shortens n (finish_value quoted s r)
unfolding finish_value
finish_value-Shortens false s r h two = ground arith
finish_value-Shortens true s r h two = elim (Bool-cases (ltb 0 r.level)) [
  | inl inside ↦ rw inside tt
  | inr closed ↦
      let (c, d, v, e) = two refl (ground arith) in
      rw closed (unquote-Shortens r.value r.remainder e h)
]

scan_value-HasTwo :
    (c : ℕ) (s : Bytes)
    → (c == b'{') ≡ true
    → (scan_value (c == b'{') 0 (c ∷ s)).level ≡ 0
    → HasTwo (scan_value (c == b'{') 0 (c ∷ s)).value
unfolding scan_value brace_step
scan_value-HasTwo c s q e =
    let (d, v, h) = scan_value-nonempty true 1 s (omega arith) (ground arith) in
    (c, d, v, ground arith)

pop_trimmed-Shortens : (s : Bytes) → Shortens (length s) (pop_trimmed s)
unfolding pop_trimmed
pop_trimmed-Shortens [] = omega arith
pop_trimmed-Shortens (c ∷ s) =
    finish_value-Shortens (c == b'{') (c ∷ s) _
      (omega (arith, length-scan_value (c == b'{') 0 (c ∷ s))) (scan_value-HasTwo c s)

Shortens-mono {ℓ} : {A : Type ℓ} {n m : ℕ} (r : Pop A) → Shortens n r → n ≤ m → Shortens m r
Shortens-mono (popped a rest) h le = omega arith
Shortens-mono (unclosed s) h le = tt
Shortens-mono panicked h le = h

pub pop_value-Shortens : (s : Bytes) → Shortens (length s) (pop_value s)
unfolding pop_value
pop_value-Shortens s = Shortens-mono _ (pop_trimmed-Shortens (trim_left s)) (length-trim_left s)

with_raw-Shortens :
    (n : ℕ) (name : Bytes) (r : Pop Bytes) → Shortens n r → Shortens n (with_raw name r)
with_raw-Shortens n name (popped raw rest) h = h
with_raw-Shortens n name (unclosed s) h = h
with_raw-Shortens n name panicked h = h

pop_raw-Shortens : (name rest : Bytes) → Shortens (length rest) (pop_raw name rest)
unfolding pop_raw
pop_raw-Shortens name [] = with_raw-Shortens _ name (pop_value []) (pop_value-Shortens [])
pop_raw-Shortens name (c ∷ s) = elim (Bool-cases (c == b' ')) [
  | inl blank ↦ rw blank (omega arith)
  | inr other ↦ rw other (with_raw-Shortens _ name (pop_value (c ∷ s)) (pop_value-Shortens (c ∷ s)))
]

-- An empty name stands in front of a `=`.
abbrev StopsAtEquals : Bytes → Bytes → Type 0
StopsAtEquals [] (d ∷ rest) = (d == b'=') ≡ true
StopsAtEquals _ _ = Unit

pop_named-Shortens :
    (n : ℕ) (name rest : Bytes)
    → length name + length rest ≤ suc n
    → StopsAtEquals name rest
    → Shortens n (pop_named (name, rest))
unfolding pop_named
pop_named-Shortens n name [] le stops = omega arith
pop_named-Shortens n [] (d ∷ rest) le stops =
    rw stops (Shortens-mono _ (pop_raw-Shortens [] rest) (omega arith))
pop_named-Shortens n (c ∷ name) (d ∷ rest) le stops = elim (Bool-cases (d == b'=')) [
  | inl equals ↦ rw equals (Shortens-mono _ (pop_raw-Shortens (c ∷ name) rest) (omega arith))
  | inr blank ↦ rw blank (omega arith)
]

span-StopsAtEquals :
    (c : ℕ) (s : Bytes)
    → (c == b' ') ≡ false
    → StopsAtEquals (span is_name_byte (c ∷ s)).0 (span is_name_byte (c ∷ s)).1
unfolding span
span-StopsAtEquals c s h = ground arith

pop_modifier_trimmed-Shortens :
    (c : ℕ) (s : Bytes) → (c == b' ') ≡ false → Shortens (length s) (pop_modifier_trimmed (c ∷ s))
unfolding pop_modifier_trimmed
pop_modifier_trimmed-Shortens c s h =
    pop_named-Shortens (length s) _ _ (omega (arith, length-span is_name_byte (c ∷ s)))
      (span-StopsAtEquals c s h)

pop_trimmed_of :
    (n : ℕ) (t : Bytes)
    → length t ≤ suc n
    → ((c : ℕ) (u : Bytes) → t ≡ c ∷ u → (c == b' ') ≡ false)
    → Shortens n (pop_modifier_trimmed t)
pop_trimmed_of n [] le head = unfold pop_modifier_trimmed in omega arith
pop_trimmed_of n (c ∷ u) le head =
    Shortens-mono _ (pop_modifier_trimmed-Shortens c u (head c u refl)) (omega arith)

-- One round of NewModifiers reads a byte or more.
pub pop_modifier-Shortens : (c : ℕ) (s : Bytes) → Shortens (length s) (pop_modifier (c ∷ s))
unfolding pop_modifier
pop_modifier-Shortens c s =
    pop_trimmed_of (length s) _ (length-trim_left (c ∷ s)) (λ d u e. trim_left-head (c ∷ s) e)

-- The result is a list of modifiers, or the modifiers before an error.
abbrev pub IsResult : Parsed → Type 0
IsResult p =
    ((ms : List Modifier) × (p ≡ parsed ms))
    ⊎ ((ms : List Modifier) × (t : Bytes) × (p ≡ failed ms t))

parse_round-IsResult :
    (n : ℕ) (next : List Modifier → Bytes → Parsed) (ms : List Modifier) (r : Pop Modifier)
    → Shortens n r
    → ((ms : List Modifier) (s : Bytes) → length s ≤ n → IsResult (next ms s))
    → IsResult (parse_round next ms r)
parse_round-IsResult n next ms (popped m rest) h ih = ih (append_named ms m) rest h
parse_round-IsResult n next ms (unclosed t) h ih = inr (ms, t, refl)
parse_round-IsResult n next ms panicked h ih = absurd h

new_modifiers_from-IsResult :
    (fuel : ℕ) (ms : List Modifier) (s : Bytes)
    → length s ≤ fuel
    → IsResult (new_modifiers_from fuel ms s)
unfolding new_modifiers_from
new_modifiers_from-IsResult fuel ms [] le = inl (ms, refl)
new_modifiers_from-IsResult zero ms (c ∷ s) le = absurd (omega arith)
new_modifiers_from-IsResult (suc fuel) ms (c ∷ s) le =
    parse_round-IsResult (length s) (new_modifiers_from fuel) ms (pop_modifier (c ∷ s))
      (pop_modifier-Shortens c s) (λ ns t h. new_modifiers_from-IsResult fuel ns t (omega arith))

-- NewModifiers returns on every string, with the modifiers or with the error of an unclosed
-- brace: its loop ends within as many rounds as the string has bytes, and no slice that it takes
-- is out of bounds.
pub new_modifiers-IsResult : (s : Bytes) → IsResult (new_modifiers s)
unfolding new_modifiers
new_modifiers-IsResult s = new_modifiers_from-IsResult (length s) [] s (omega arith)
