-- ===== src/Modifier/RoundTrip.antt =====
-- Printing a list of modifiers and parsing it again.
use sqddl.Base.{
  ℕ, zero, suc, ◌+◌, ◌-◌, ◌≤◌, List, [], ◌∷◌, ◌++◌, ◌≡◌, refl, sym, ap, ◌∙◌, length, Bytes,
  trim_left, All, arith, append_assoc, append-nil, map, length-append,
}
use sqddl.Modifier.{Modifier, to_modifiers}
use sqddl.Modifier.Parse.{
  pop_modifier, parsed, append_named, parse_round, new_modifiers_from, new_modifiers,
}
use sqddl.Modifier.Print.{separator, write_all, to_string}
use sqddl.Modifier.Values.{IsPlain, clear_dialects, item_text, Ends, plain}
use sqddl.Modifier.Items.{
  pop_modifier-item_text, write_buf-item_text, IsOpen, separator-IsOpen, item_text-solid,
  item_text-nonempty, IsOpen-append,
}

-- The text of the modifiers behind the first.
abbrev tail_text : List Modifier → Bytes
tail_text [] = []
tail_text (m ∷ ms) = b' ' ∷ (item_text m ++ tail_text ms)

write_all-tail_text :
    (ms : List Modifier) (buf : Bytes)
    → All IsPlain ms
    → IsOpen buf
    → write_all (to_modifiers ms) buf ≡ buf ++ tail_text ms
unfolding write_all
write_all-tail_text [] buf h o = sym (append-nil buf)
write_all-tail_text (m ∷ ms) buf (p, h) o = rw (write_buf-item_text m buf p) (
    rw (separator-IsOpen buf o) (
      write_all-tail_text ms (buf ++ b' ' ∷ item_text m) h (IsOpen-append buf p o)
      ∙ append_assoc buf (b' ' ∷ item_text m) (tail_text ms)))

append_named-plain :
    (acc : List Modifier) {m : Modifier}
    → IsPlain m
    → append_named acc (clear_dialects m) ≡ acc ++ clear_dialects m ∷ []
unfolding append_named
append_named-plain acc (plain ds [] raw n h) = absurd (n.0 refl)
append_named-plain acc (plain ds (c ∷ name) raw n h) = refl

Ends-tail_text : (ms : List Modifier) → Ends (tail_text ms)
Ends-tail_text [] = tt
Ends-tail_text (m ∷ ms) = refl

round_lem :
    (fuel : ℕ) (acc : List Modifier) (m : Modifier) (rest : Bytes)
    → IsPlain m
    → Ends rest
    → parse_round (new_modifiers_from fuel) acc (pop_modifier (item_text m ++ rest))
      ≡ new_modifiers_from fuel (acc ++ clear_dialects m ∷ []) rest
round_lem fuel acc m rest p e =
    ap (parse_round (new_modifiers_from fuel) acc) (pop_modifier-item_text m rest p e)
    ∙ ap (λ ns. new_modifiers_from fuel ns rest) (append_named-plain acc p)

pop_modifier-blank : (s : Bytes) → pop_modifier (b' ' ∷ s) ≡ pop_modifier s
unfolding pop_modifier trim_left
pop_modifier-blank s = refl

read_tail :
    (fuel : ℕ) (acc ms : List Modifier)
    → All IsPlain ms
    → length ms ≤ fuel
    → new_modifiers_from fuel acc (tail_text ms) ≡ parsed (acc ++ map clear_dialects ms)
unfolding new_modifiers_from
read_tail fuel acc [] h le = ap parsed (sym (append-nil acc))
read_tail zero acc (m ∷ ms) h le = absurd (omega arith)
read_tail (suc fuel) acc (m ∷ ms) (p, h) le =
    ap (parse_round (new_modifiers_from fuel) acc) (pop_modifier-blank _)
    ∙ round_lem fuel acc m (tail_text ms) p (Ends-tail_text ms)
    ∙ read_tail fuel (acc ++ clear_dialects m ∷ []) ms h (omega arith)
    ∙ ap parsed (append_assoc acc (clear_dialects m ∷ []) (map clear_dialects ms))

length-tail_text : (ms : List Modifier) → length ms ≤ length (tail_text ms)
length-tail_text [] = omega arith
length-tail_text (m ∷ ms) =
    omega (arith, length-tail_text ms, length-append (item_text m) (tail_text ms))

-- Where a second modifier follows, the text of the first has two bytes or more.
abbrev pub FirstIsLong : List Modifier → Type 0
FirstIsLong (m ∷ n ∷ ms) = 2 ≤ length (item_text m)
FirstIsLong _ = Unit

to_string-item_text :
    (m : Modifier) (ms : List Modifier)
    → IsPlain m
    → All IsPlain ms
    → FirstIsLong (m ∷ ms)
    → to_string (to_modifiers (m ∷ ms)) ≡ item_text m ++ tail_text ms
unfolding to_string write_all separator
to_string-item_text m [] p h long = write_buf-item_text m [] p ∙ sym (append-nil (item_text m))
to_string-item_text m (n ∷ ms) p h long =
    rw (write_buf-item_text m [] p)
      (write_all-tail_text (n ∷ ms) (item_text m) h (long, item_text-solid p))

first_round :
    (k : ℕ) (s : Bytes)
    → suc k ≡ length s
    → new_modifiers s ≡ parse_round (new_modifiers_from k) [] (pop_modifier s)
unfolding new_modifiers new_modifiers_from
first_round k [] e = absurd (omega arith)
first_round k (c ∷ s) e =
    let same : k ≡ length s = omega arith in
    ap (λ n. parse_round (new_modifiers_from n) [] (pop_modifier (c ∷ s))) (sym same)

read_text :
    (m : Modifier) (ms : List Modifier)
    → IsPlain m
    → All IsPlain ms
    → new_modifiers (item_text m ++ tail_text ms) ≡ parsed (map clear_dialects (m ∷ ms))
read_text m ms p h =
    let k = length (item_text m) + length (tail_text ms) - 1 in
    let size = length-append (item_text m) (tail_text ms) in
    first_round k (item_text m ++ tail_text ms) (omega (arith, size, item_text-nonempty p))
    ∙ round_lem k [] m (tail_text ms) p (Ends-tail_text ms)
    ∙ read_tail k (clear_dialects m ∷ []) ms h
        (omega (arith, length-tail_text ms, item_text-nonempty p))

-- Printing a list of modifiers and parsing the text gives the same list, but for the dialects,
-- which are not printed. Each modifier has a non-empty name with no space, `=` or `:`, a raw value
-- whose braces are balanced if it holds a space and that does not start with a brace otherwise,
-- and nothing parsed out of the raw value; the text of the first is two bytes or more unless it
-- stands alone.
pub new_modifiers-to_string :
    (ms : List Modifier)
    → All IsPlain ms
    → FirstIsLong ms
    → new_modifiers (to_string (to_modifiers ms)) ≡ parsed (map clear_dialects ms)
new_modifiers-to_string [] h long =
    unfold new_modifiers new_modifiers_from to_string write_all in refl
new_modifiers-to_string (m ∷ ms) (p, h) long =
    ap new_modifiers (to_string-item_text m ms p h long) ∙ read_text m ms p h
