-- ===== src/Modifier/Joined.antt =====
-- String of ddl/modifier.go behind a first modifier of one byte.
use sqddl.Base.{
  ℕ, Bool, true, false, [], ◌∷◌, ◌++◌, ◌≡◌, refl, sym, ap, ◌∙◌, if◌then◌else◌, codes, Bytes, arith,
}
use sqddl.Modifier.{Modifier, modifier, Modifiers, nil, cons}
use sqddl.Modifier.Print.{separator, raw_text, write_buf, write_all, to_string, ends_in_space}

separator-cons : (c d e : ℕ) (s : Bytes) → separator (c ∷ d ∷ e ∷ s) ≡ separator (d ∷ e ∷ s)
unfolding separator ends_in_space
separator-cons c d e s = ground arith

-- The two texts are the same but for a byte in front, and have two bytes in common.
abbrev Prefixed : ℕ → ℕ → ℕ → Bytes → Bytes → Type 0
Prefixed c d e short long = (t : Bytes) × (short ≡ d ∷ e ∷ t) × (long ≡ c ∷ d ∷ e ∷ t)

Prefixed-append :
    (c d e : ℕ) (short long more : Bytes)
    → Prefixed c d e short long
    → Prefixed c d e (short ++ more) (long ++ more)
Prefixed-append c d e short long more (t, p, q) =
    (t ++ more, ap (λ s. s ++ more) p, ap (λ s. s ++ more) q)

Prefixed-if :
    (b : Bool) (c d e : ℕ) (x y v w : Bytes)
    → Prefixed c d e x v
    → Prefixed c d e y w
    → Prefixed c d e (if b then x else y) (if b then v else w)
Prefixed-if true c d e x y v w p q = p
Prefixed-if false c d e x y v w p q = q

mutual
  unfolding write_buf write_all

  -- A byte in front of a buffer of two bytes makes no difference to what is written.
  write_buf-Prefixed :
      (m : Modifier) (c d e : ℕ) (s : Bytes)
      → Prefixed c d e (write_buf m (d ∷ e ∷ s)) (write_buf m (c ∷ d ∷ e ∷ s))
  write_buf-Prefixed (modifier ds [] raw value subs) c d e s = (s, refl, refl)
  write_buf-Prefixed (modifier ds (n ∷ name) (r ∷ raw) value subs) c d e s = (
    s ++ (separator (d ∷ e ∷ s) ++ ((n ∷ name) ++ raw_text (r ∷ raw))),
    refl,
    rw (separator-cons c d e s) refl,
  )
  write_buf-Prefixed (modifier ds (n ∷ name) [] value subs) c d e s = rw (separator-cons c d e s) (
      let written = write_all-Prefixed subs c d e _ in
      Prefixed-if _ c d e _ _ _ _ (_, refl, refl)
        (Prefixed-if _ c d e _ _ _ _ (Prefixed-append c d e _ _ (codes "}") written) written))

  write_all-Prefixed :
      (ms : Modifiers) (c d e : ℕ) (s : Bytes)
      → Prefixed c d e (write_all ms (d ∷ e ∷ s)) (write_all ms (c ∷ d ∷ e ∷ s))
  write_all-Prefixed nil c d e s = (s, refl, refl)
  write_all-Prefixed (cons m ms) c d e s =
      let (t, p, q) = write_buf-Prefixed m c d e s in rw (p, q) (write_all-Prefixed ms c d e t)

Prefixed-is : (c d e : ℕ) (short long : Bytes) → Prefixed c d e short long → long ≡ c ∷ short
Prefixed-is c d e short long (t, p, q) = q ∙ ap (λ s. c ∷ s) (sym p)

cons-if :
    (b : Bool) (c : ℕ) (x y v w : Bytes)
    → v ≡ c ∷ x
    → w ≡ c ∷ y
    → (if b then v else w) ≡ c ∷ (if b then x else y)
cons-if true c x y v w p q = p
cons-if false c x y v w p q = q

-- The end of write_buf: with nothing, a closing brace or the submodifiers alone.
ends-cons :
    (a b : Bool) (c : ℕ) (named short long : Bytes)
    → long ≡ c ∷ short
    → (if a then c ∷ named else if b then long ++ codes "}" else long)
      ≡ c ∷ (if a then named else if b then short ++ codes "}" else short)
ends-cons a b c named short long e =
    cons-if a c _ _ _ _ refl (cons-if b c _ _ _ _ (ap (λ s. s ++ codes "}") e) e)

-- Behind a first modifier that is a name of one byte and nothing else, a second modifier is printed
-- without a space: the text is that byte and the text of the second modifier alone, whatever byte
-- and whatever modifier they are.
pub to_string-joined :
    (c : ℕ) (m : Modifier)
    → to_string (cons (modifier [] (c ∷ []) [] [] nil) (cons m nil)) ≡ c ∷ to_string (cons m nil)
unfolding to_string write_all write_buf separator
to_string-joined c (modifier ds [] raw value subs) = refl
to_string-joined c (modifier ds (d ∷ name) (r ∷ raw) value subs) = refl
to_string-joined c (modifier ds (d ∷ []) [] value subs) =
    ends-cons _ _ c _ _ _ (Prefixed-is c d b'=' _ _ (write_all-Prefixed subs c d b'=' _))
to_string-joined c (modifier ds (d ∷ e ∷ name) [] value subs) =
    ends-cons _ _ c _ _ _ (Prefixed-is c d e _ _ (write_all-Prefixed subs c d e _))
