-- ===== src/Helpers/Brackets.antt =====
-- ddl/ddl.go: wrapBrackets, unwrapBrackets and wrappedInBrackets; and the functions of package
-- `strings` on upper and lower case, on ASCII.
use sqddl.Base.{
  ℕ, ◌-◌, Bool, false, ◌&&◌, [], ◌∷◌, ◌++◌, if◌then◌else◌, leb, ◌==◌, map, Bytes, text_eq,
}

-- s[len(s)-1] == b, for a text that is not empty
unfoldable pub ends_in : ℕ → Bytes → Bool
ends_in b [] = false
ends_in b (c ∷ []) = c == b
ends_in b (c ∷ d ∷ s) = ends_in b (d ∷ s)

unfoldable pub wrapped_in_brackets : Bytes → Bool
wrapped_in_brackets [] = false
wrapped_in_brackets (c ∷ s) = c == b'(' && ends_in b')' (c ∷ s)

unfoldable pub wrap_brackets : Bytes → Bytes
wrap_brackets [] = []
wrap_brackets (c ∷ s) = if wrapped_in_brackets (c ∷ s) then c ∷ s else b'(' ∷ (c ∷ s ++ b')' ∷ [])

-- s[:len(s)-1]
unfoldable pub but_last : Bytes → Bytes
but_last [] = []
but_last (c ∷ []) = []
but_last (c ∷ d ∷ s) = c ∷ but_last (d ∷ s)

unfoldable pub unwrap_brackets : Bytes → Bytes
unwrap_brackets [] = []
unwrap_brackets (c ∷ s) = if wrapped_in_brackets (c ∷ s) then but_last s else c ∷ s

abbrev pub upper_byte : ℕ → ℕ
upper_byte c = if leb b'a' c && leb c b'z' then c - 32 else c

-- strings.ToUpper
unfoldable pub to_upper : Bytes → Bytes
to_upper s = map upper_byte s

-- strings.EqualFold
unfoldable pub equal_fold : Bytes → Bytes → Bool
equal_fold s t = text_eq (to_upper s) (to_upper t)
