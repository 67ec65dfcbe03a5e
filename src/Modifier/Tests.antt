-- ===== src/Modifier/Tests.antt =====
-- Runs of the modifier parser and printer, and the theorems at concrete inputs.
use sqddl.Base.{◌≡◌, All, map, arith, refl, List, [], ◌∷◌, codes, Bytes, trim_left, span, contains}
use sqddl.Modifier.{Modifier, modifier, nil, cons, to_modifiers}
use sqddl.Modifier.Values
use sqddl.Modifier.Values.{IsPlain, clear_dialects}
use sqddl.Modifier.Totality.{IsResult, new_modifiers-IsResult}
use sqddl.Modifier.RoundTrip.{new_modifiers-to_string}
use sqddl.Modifier.Joined.{to_string-joined}
use sqddl.Modifier.Errors.{new_modifiers-NoBrace}
use sqddl.Modifier.Parse.{
  parsed, failed, new_modifiers, new_modifiers_from, pop_modifier, pop_value, filled,
  parse_raw_value, append_named, pop_modifier_trimmed, pop_named, pop_raw, split_name, cut_name,
  split_comma, pop_trimmed, finish_value, unquote, scan_value, brace_step, with_value,
  with_submodifiers,
}
use sqddl.Modifier.Print.{to_string}

parser : Unit {0}
unfolding new_modifiers new_modifiers_from append_named pop_modifier pop_modifier_trimmed pop_named
    pop_raw split_name cut_name split_comma pop_value pop_trimmed finish_value unquote scan_value
    brace_step trim_left span parse_raw_value with_value with_submodifiers
parser = tt

abbrev plain : Bytes → Bytes → Modifier
plain name raw = modifier [] name raw [] nil

parse_test :
    new_modifiers (codes "type=TEXT  postgres,mysql:default={a {b} c} notnull")
    ≡ parsed (
        plain (codes "type") (codes "TEXT")
        ∷ modifier
            (codes "postgres" ∷ codes "mysql" ∷ [])
            (codes "default")
            (codes "a {b} c")
            []
            nil
        ∷ plain (codes "notnull") []
        ∷ [])
unfolding parser
parse_test = refl

parse_error : new_modifiers (codes "a b={c") ≡ failed (plain (codes "a") [] ∷ []) (codes "{c")
unfolding parser
parse_error = refl

fill_test :
    parse_raw_value (plain (codes "index") (codes "{a b} unique using=hash"))
    ≡ filled (
        modifier []
          (codes "index")
          (codes "{a b} unique using=hash")
          (codes "a b")
          (to_modifiers (plain (codes "unique") [] ∷ plain (codes "using") (codes "hash") ∷ [])))
unfolding parser
fill_test = refl

print_test :
    to_string (
      to_modifiers (
        plain (codes "type") (codes "a b")
        ∷ plain (codes "notnull") []
        ∷ modifier [] (codes "index") [] [] (cons (plain (codes "unique") []) nil)
        ∷ []))
    ≡ codes "type={a b} notnull index={. unique}"
unfolding to_string
print_test = refl

abbrev two : List Modifier
two =
    modifier (codes "postgres" ∷ []) (codes "type") (codes "a {b} c") [] nil
    ∷ plain (codes "notnull") []
    ∷ []

two_plain : All IsPlain two
unfolding contains brace_step
two_plain = (
  Values.plain (codes "postgres" ∷ []) (codes "type") (codes "a {b} c")
      ((λ e. cc), (refl, (refl, (refl, (refl, tt)))))
      (
        omega arith,
        (
          omega arith,
          (omega arith, (omega arith, (omega arith, (omega arith, (omega arith, refl))))),
        ),
      ),
  (
    Values.plain [] (codes "notnull") []
        ((λ e. cc), (refl, (refl, (refl, (refl, (refl, (refl, (refl, tt)))))))) tt,
    tt,
  ),
)

new_modifiers-IsResult_example : IsResult (new_modifiers (codes "a={b c"))
new_modifiers-IsResult_example = new_modifiers-IsResult (codes "a={b c")

new_modifiers-to_string_example :
    new_modifiers (to_string (to_modifiers two)) ≡ parsed (map clear_dialects two)
new_modifiers-to_string_example = new_modifiers-to_string two two_plain (omega arith)

abbrev sized : Modifier
sized = modifier [] (codes "b") [] (codes "1") (cons (plain (codes "c") []) nil)

to_string-joined_example :
    to_string (to_modifiers (plain (codes "a") [] ∷ sized ∷ []))
    ≡ b'a' ∷ to_string (to_modifiers (sized ∷ []))
to_string-joined_example = to_string-joined b'a' sized

new_modifiers-NoBrace_example : (ms : List Modifier) × (new_modifiers (codes "a=b") ≡ parsed ms)
new_modifiers-NoBrace_example = new_modifiers-NoBrace (codes "a=b") (refl, (refl, (refl, tt)))
