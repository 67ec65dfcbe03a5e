-- ===== src/Modifier/Errors.antt =====
-- When the parser of modifiers fails, and which dialects a modifier leaves out.
use sqddl.Base.{
  ℕ, zero, suc, Bool, true, false, List, [], ◌∷◌, ◌≡◌, ◌≢◌, ◌↔◌, inl, inr, refl, ◌==◌, Bool-cases,
  length, Bytes, span, trim_left, arith, All, text_eq_iff,
}
use sqddl.Modifier.{Modifier, modifier, has_dialect, excludes_in, excludes_dialect, dialects_of}
use sqddl.Modifier.Parse.{
  Pop, popped, unclosed, panicked, brace_step, scan_value, finish_value, pop_trimmed, pop_value,
  with_raw, pop_raw, pop_named, is_name_byte, pop_modifier_trimmed, pop_modifier, Parsed, parsed,
  failed, append_named, parse_round, new_modifiers_from, new_modifiers,
}
use sqddl.Modifier.Totality.{IsResult, new_modifiers-IsResult}

abbrev pub NoBrace : Bytes → Type 0
NoBrace s = All (λ c. (c == b'{') ≡ false) s

-- Popped, with no brace in the remainder, which is the shorter.
abbrev Clean {ℓ} : {A : Type ℓ} → Pop A → Type 0
Clean (popped a rest) = NoBrace rest
Clean (unclosed s) = ⊥
Clean panicked = ⊥

NoBrace-trim_left : (s : Bytes) → NoBrace s → NoBrace (trim_left s)
unfolding trim_left
NoBrace-trim_left [] h = tt
NoBrace-trim_left (c ∷ s) (p, h) = ground (arith, NoBrace-trim_left s h)

NoBrace-span : (p : ℕ → Bool) (s : Bytes) → NoBrace s → NoBrace (span p s).1
unfolding span
NoBrace-span p [] h = tt
NoBrace-span p (c ∷ s) (q, h) = ground (arith, NoBrace-span p s h)

scan_value-NoBrace :
    (s : Bytes)
    → NoBrace s
    → NoBrace (scan_value false 0 s).remainder × ((scan_value false 0 s).level ≡ 0)
unfolding scan_value brace_step
scan_value-NoBrace [] h = (tt, refl)
scan_value-NoBrace (c ∷ s) (p, h) = ground (arith, scan_value-NoBrace s h)

pop_trimmed-Clean : (s : Bytes) → NoBrace s → Clean (pop_trimmed s)
unfolding pop_trimmed finish_value
pop_trimmed-Clean [] h = tt
pop_trimmed-Clean (c ∷ s) (p, h) =
    let scan = scan_value-NoBrace (c ∷ s) (p, h) in rw p (rw scan.1 scan.0)

pop_value-Clean : (s : Bytes) → NoBrace s → Clean (pop_value s)
unfolding pop_value
pop_value-Clean s h = pop_trimmed-Clean (trim_left s) (NoBrace-trim_left s h)

with_raw-Clean : (name : Bytes) (r : Pop Bytes) → Clean r → Clean (with_raw name r)
with_raw-Clean name (popped raw rest) h = h
with_raw-Clean name (unclosed s) h = h
with_raw-Clean name panicked h = h

pop_raw-Clean : (name s : Bytes) → NoBrace s → Clean (pop_raw name s)
unfolding pop_raw
pop_raw-Clean name [] h = with_raw-Clean name (pop_value []) (pop_value-Clean [] tt)
pop_raw-Clean name (c ∷ s) h = elim (Bool-cases (c == b' ')) [
  | inl blank ↦ rw blank h
  | inr other ↦ rw other (with_raw-Clean name (pop_value (c ∷ s)) (pop_value-Clean (c ∷ s) h))
]

pop_named-Clean : (name rest : Bytes) → NoBrace rest → Clean (pop_named (name, rest))
unfolding pop_named
pop_named-Clean name [] h = tt
pop_named-Clean name (d ∷ rest) (p, h) = elim (Bool-cases (d == b'=')) [
  | inl equals ↦ rw equals (pop_raw-Clean name rest h)
  | inr blank ↦ rw blank (p, h)
]

pop_modifier_trimmed-Clean : (s : Bytes) → NoBrace s → Clean (pop_modifier_trimmed s)
unfolding pop_modifier_trimmed
pop_modifier_trimmed-Clean [] h = tt
pop_modifier_trimmed-Clean (c ∷ s) h = pop_named-Clean _ _ (NoBrace-span is_name_byte (c ∷ s) h)

pop_modifier-Clean : (s : Bytes) → NoBrace s → Clean (pop_modifier s)
unfolding pop_modifier
pop_modifier-Clean s h = pop_modifier_trimmed-Clean (trim_left s) (NoBrace-trim_left s h)

-- No error, and no slice out of bounds.
abbrev pub NotFailed : Parsed → Type 0
NotFailed (failed ms s) = ⊥
NotFailed _ = Unit

parse_round-NotFailed :
    (next : List Modifier → Bytes → Parsed) (ms : List Modifier) (r : Pop Modifier)
    → Clean r
    → ((ms : List Modifier) (s : Bytes) → NoBrace s → NotFailed (next ms s))
    → NotFailed (parse_round next ms r)
parse_round-NotFailed next ms (popped m rest) h ih = ih (append_named ms m) rest h
parse_round-NotFailed next ms (unclosed t) h ih = h
parse_round-NotFailed next ms panicked h ih = tt

new_modifiers_from-NotFailed :
    (fuel : ℕ) (ms : List Modifier) (s : Bytes)
    → NoBrace s
    → NotFailed (new_modifiers_from fuel ms s)
unfolding new_modifiers_from
new_modifiers_from-NotFailed fuel ms [] h = tt
new_modifiers_from-NotFailed zero ms (c ∷ s) h = tt
new_modifiers_from-NotFailed (suc fuel) ms (c ∷ s) h =
    parse_round-NotFailed (new_modifiers_from fuel) ms (pop_modifier (c ∷ s))
      (pop_modifier-Clean (c ∷ s) h) (new_modifiers_from-NotFailed fuel)

parsed_of_NotFailed :
    (p : Parsed) → IsResult p → NotFailed p → (ms : List Modifier) × (p ≡ parsed ms)
parsed_of_NotFailed p (inl h) ok = h
parsed_of_NotFailed p (inr (ms, t, e)) ok = absurd (rw e at ok)

-- A string with no opening brace is always parsed: the only error is an unclosed brace.
pub new_modifiers-NoBrace :
    (s : Bytes) → NoBrace s → (ms : List Modifier) × (new_modifiers s ≡ parsed ms)
new_modifiers-NoBrace s h =
    parsed_of_NotFailed (new_modifiers s) (new_modifiers-IsResult s)
      (unfold new_modifiers in new_modifiers_from-NotFailed (length s) [] s h)

has_dialect_iff :
    (dialect : Bytes) (ds : List Bytes)
    → (has_dialect dialect ds ≡ false) ↔ All (λ d. d ≢ dialect) ds
unfolding has_dialect
has_dialect_iff dialect [] = (λ _. tt, λ _. refl)
has_dialect_iff dialect (d ∷ ds) = ground (arith, text_eq_iff d dialect, has_dialect_iff dialect ds)

-- A modifier leaves a dialect out exactly when it lists dialects and that one is none of them.
pub excludes_dialect_iff :
    (m : Modifier) (dialect : Bytes)
    → (excludes_dialect m dialect ≡ true)
      ↔ ((dialects_of m ≢ []) × All (λ d. d ≢ dialect) (dialects_of m))
unfolding excludes_dialect excludes_in
excludes_dialect_iff (modifier [] name raw value subs) dialect =
    (λ e. absurd (cc), λ h. absurd (h.0 refl))
excludes_dialect_iff (modifier (d ∷ ds) name raw value subs) dialect =
    ground (arith, has_dialect_iff dialect (d ∷ ds))
