-- ===== src/Modifier/Values.antt =====
-- Reading back what the printer writes for a name and a raw value. Each lemma reads one piece of the text with any
-- `rest` behind it that is empty or starts with a space.
use sqddl.Base.{
  ℕ, ◌<◌, Bool, true, false, not, ◌&&◌, List, [], ◌∷◌, ◌++◌, ◌≡◌, ◌≢◌, inl, inr, refl, ap, ◌==◌,
  if◌then◌else◌, Bool-cases, Bytes, span, trim_left, contains, All, arith, append_assoc, append-nil,
}
use sqddl.Modifier.{Modifier, modifier, nil}
use sqddl.Modifier.Parse.{
  popped, brace_step, scan_value, init, unquote, finish_value, pop_trimmed, pop_value, cut_name,
  split_name, with_raw, pop_raw, pop_named, is_name_byte,
}
use sqddl.Modifier.Print.{raw_text}

abbrev pub is_plain_byte : ℕ → Bool
is_plain_byte c = is_name_byte c && not (c == b':')

-- A name that the parser reads whole.
abbrev pub IsName : Bytes → Type 0
IsName name = (name ≢ []) × All (λ c. is_plain_byte c ≡ true) name

-- From brace level `level` the braces do not close before the end, and end at level 1.
abbrev pub IsBalanced : ℕ → Bytes → Type 0
IsBalanced level [] = level ≡ 1
IsBalanced level (c ∷ s) = (0 < level) × IsBalanced (brace_step true level c) s

abbrev pub NotQuoted : Bytes → Type 0
NotQuoted [] = Unit
NotQuoted (c ∷ s) = (c == b'{') ≡ false

-- A raw value that is read back: with a space in it its braces are balanced, and else it does not
-- start with a brace, which the parser would take off.
abbrev pub IsRaw : Bytes → Type 0
IsRaw raw = if contains b' ' raw then IsBalanced 1 raw else NotQuoted raw

-- A modifier as NewModifiers returns it, with no value or submodifiers parsed yet.
pub data IsPlain : Modifier → Type 0 where
  plain :
      (ds : List Bytes) (name raw : Bytes)
      → IsName name
      → IsRaw raw
      → IsPlain (modifier ds name raw [] nil)

abbrev pub clear_dialects : Modifier → Modifier
clear_dialects (modifier ds name raw value subs) = modifier [] name raw value subs

abbrev pub item_text : Modifier → Bytes
item_text (modifier ds name [] value subs) = name
item_text (modifier ds name (r ∷ raw) value subs) = name ++ raw_text (r ∷ raw)

abbrev pub Ends : Bytes → Type 0
Ends [] = Unit
Ends (c ∷ s) = c ≡ b' '

abbrev pub Stops : (ℕ → Bool) → Bytes → Type 0
Stops p [] = Unit
Stops p (c ∷ s) = p c ≡ false

pub span-append :
    (p : ℕ → Bool) (a rest : Bytes)
    → All (λ c. p c ≡ true) a
    → Stops p rest
    → span p (a ++ rest) ≡ (a, rest)
unfolding span
span-append p [] [] h stops = refl
span-append p [] (c ∷ s) h stops = rw stops
span-append p (c ∷ a) rest (here, h) stops = rw here (rw (span-append p a rest h stops))

pub span_whole : (p : ℕ → Bool) (a : Bytes) → All (λ c. p c ≡ true) a → span p a ≡ (a, [])
span_whole p a h = rw append-nil at (span-append p a [] h tt)

pub All-map {ℓ κ} :
    {A : Type ℓ} {P Q : A → Type κ} (xs : List A) → ((x : A) → P x → Q x) → All P xs → All Q xs
All-map [] f h = tt
All-map (x ∷ xs) f (p, h) = (f x p, All-map xs f h)

pub split_name-IsName :
    (name raw : Bytes) → IsName name → split_name name raw ≡ modifier [] name raw [] nil
unfolding split_name cut_name
split_name-IsName name raw (_, h) =
    rw (span_whole (λ c. not (c == b':')) name (All-map name (λ c p. ground arith) h))

scan_plain :
    (raw rest : Bytes)
    → contains b' ' raw ≡ false
    → Ends rest
    → scan_value false 0 (raw ++ rest) ≡ record { value = raw; remainder = rest; level = 0 }
unfolding scan_value brace_step contains
scan_plain [] [] h e = refl
scan_plain [] (c ∷ s) h e = ground arith
scan_plain (c ∷ raw) rest h e = ground (arith, scan_plain raw rest (ground arith) e)

-- A closing brace after balanced text ends the value.
scan_closed :
    (level : ℕ) (raw rest : Bytes)
    → IsBalanced level raw
    → Ends rest
    → scan_value true level (raw ++ b'}' ∷ rest)
      ≡ record { value = raw ++ b'}' ∷ []; remainder = rest; level = 0 }
unfolding scan_value brace_step
scan_closed level [] [] h e = ground arith
scan_closed level [] (c ∷ s) h e = ground arith
scan_closed level (c ∷ raw) rest (pos, h) e =
    ground (arith, scan_closed (brace_step true level c) raw rest h e)

init-append : (s : Bytes) (c : ℕ) → init (s ++ c ∷ []) ≡ s
init-append [] c = refl
init-append (d ∷ []) c = refl
init-append (d ∷ e ∷ s) c = ap (◌∷◌ d) (init-append (e ∷ s) c)

unquote_lem : (raw rest : Bytes) → unquote (b'{' ∷ (raw ++ b'}' ∷ [])) rest ≡ popped raw rest
unfolding unquote
unquote_lem [] rest = refl
unquote_lem (c ∷ raw) rest = ap (λ v. popped v rest) (init-append (c ∷ raw) b'}')

pub trim_left-nonblank : (c : ℕ) (s : Bytes) → (c == b' ') ≡ false → trim_left (c ∷ s) ≡ c ∷ s
unfolding trim_left
trim_left-nonblank c s h = rw h

pop_value_plain :
    (c : ℕ) (raw rest : Bytes)
    → contains b' ' (c ∷ raw) ≡ false
    → (c == b'{') ≡ false
    → Ends rest
    → pop_value (c ∷ (raw ++ rest)) ≡ popped (c ∷ raw) rest
unfolding pop_value pop_trimmed finish_value
pop_value_plain c raw rest h unquoted e =
    rw (trim_left-nonblank c (raw ++ rest) (unfold contains in ground arith))
      (rw unquoted (rw (scan_plain (c ∷ raw) rest h e)))

pop_value_braced :
    (raw rest : Bytes)
    → IsBalanced 1 raw
    → Ends rest
    → pop_value (b'{' ∷ (raw ++ b'}' ∷ rest)) ≡ popped raw rest
unfolding pop_value pop_trimmed finish_value
pop_value_braced raw rest h e =
    rw (trim_left-nonblank b'{' (raw ++ b'}' ∷ rest) refl) (rw (scan_braced) (unquote_lem raw rest))
  where
    scan_braced :
        scan_value true 0 (b'{' ∷ (raw ++ b'}' ∷ rest))
        ≡ record { value = b'{' ∷ (raw ++ b'}' ∷ []); remainder = rest; level = 0 }
    scan_braced = unfold scan_value brace_step in rw (scan_closed 1 raw rest h e)

-- What the printer writes for a raw value is read back behind the `=`.
pub pop_raw-raw_text :
    (name : Bytes) (r : ℕ) (raw rest : Bytes)
    → IsRaw (r ∷ raw)
    → Ends rest
    → pop_named (name, raw_text (r ∷ raw) ++ rest) ≡ popped (split_name name (r ∷ raw)) rest
unfolding pop_named pop_raw raw_text
pop_raw-raw_text name r raw rest h e = elim (Bool-cases (contains b' ' (r ∷ raw))) [
  | inl spaced ↦
      rw spaced
        (rw append_assoc (ap (with_raw name) (pop_value_braced (r ∷ raw) rest (rw spaced at h) e)))
  | inr solid ↦ rw solid (plain solid)
]
  where
    nonblank : contains b' ' (r ∷ raw) ≡ false → (r == b' ') ≡ false
    nonblank solid = unfold contains in ground arith

    plain :
        contains b' ' (r ∷ raw) ≡ false
        → pop_named (name, b'=' ∷ r ∷ (raw ++ rest)) ≡ popped (split_name name (r ∷ raw)) rest
    plain solid =
        rw (nonblank solid)
          (ap (with_raw name) (pop_value_plain r raw rest solid (rw solid at h) e))
