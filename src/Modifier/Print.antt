-- ===== src/Modifier/Print.antt =====
-- ddl/modifier.go: writeBuf and String. The buffer is the string written so far.
use sqddl.Base.{
  ◌-◌, Bool, true, false, not, ◌&&◌, ◌||◌, [], ◌∷◌, ◌++◌, ltb, ◌==◌, if◌then◌else◌, length, codes,
  Bytes, contains,
}
use sqddl.Modifier.{Modifier, modifier, Modifiers, nil, cons}

-- buf.Bytes()[last] != ' '
unfoldable pub ends_in_space : Bytes → Bool
ends_in_space [] = false
ends_in_space (c ∷ []) = c == b' '
ends_in_space (c ∷ d ∷ s) = ends_in_space (d ∷ s)

-- The space before a modifier. `last` is the length less one; the test is `last > 0`.
unfoldable pub separator : Bytes → Bytes
unfolding ends_in_space
separator buf = if ltb 0 (length buf - 1) && not (ends_in_space buf) then b' ' ∷ [] else []

unfoldable pub raw_text : Bytes → Bytes
unfolding contains
raw_text raw = if contains b' ' raw then codes "={" ++ (raw ++ codes "}") else codes "=" ++ raw

abbrev pub is_empty : Bytes → Bool
is_empty [] = true
is_empty (c ∷ s) = false

abbrev pub has_submodifiers : Modifiers → Bool
has_submodifiers nil = false
has_submodifiers (cons m ms) = true

-- What stands between `=` and the submodifiers.
unfoldable pub value_text : Bytes → Bool → Bytes
unfolding contains
value_text value more =
    (if contains b' ' value || more then codes "{" else [])
    ++ (if is_empty value
        then codes "."
        else if contains b' ' value
        then codes "{" ++ (value ++ codes "}")
        else value)

unfoldable mutual
  unfolding separator raw_text value_text contains

  pub write_buf : Modifier → Bytes → Bytes
  write_buf (modifier ds [] raw value subs) buf = buf
  write_buf (modifier ds (c ∷ name) (r ∷ raw) value subs) buf =
      buf ++ (separator buf ++ ((c ∷ name) ++ raw_text (r ∷ raw)))
  write_buf (modifier ds (c ∷ name) [] value subs) buf =
      let named = buf ++ (separator buf ++ (c ∷ name)) in
      let more = has_submodifiers subs in
      let written = write_all subs (named ++ (codes "=" ++ value_text value more)) in
      if is_empty value && not more
      then named
      else if contains b' ' value || more
      then written ++ codes "}"
      else written

  pub write_all : Modifiers → Bytes → Bytes
  write_all nil buf = buf
  write_all (cons m ms) buf = write_all ms (write_buf m buf)

unfoldable pub to_string : Modifiers → Bytes
unfolding write_all
to_string ms = write_all ms []
