-- ===== src/Cache/Maps.antt =====
-- Go maps whose keys are arrays of strings, as association lists with one entry for a key.
use sqddl.Base.{
  Bool, true, false, ◌&&◌, List, [], ◌∷◌, Option, none, some, ◌≡◌, ◌≢◌, ◌↔◌, refl, sym, ◌∙◌,
  false≢true, arith, if◌then◌else◌, Bytes, text_eq, text_eq_iff,
}

-- [2]string and [3]string; a plain string is a key of length one
abbrev pub Key : Type 0
Key = List Bytes

unfoldable pub key_eq : Key → Key → Bool
key_eq [] [] = true
key_eq (a ∷ k) (b ∷ j) = text_eq a b && key_eq k j
key_eq _ _ = false

pub key_eq_iff : (k j : Key) → (key_eq k j ≡ true) ↔ (k ≡ j)
unfolding key_eq
key_eq_iff (a ∷ k) (b ∷ j) = ground (arith, text_eq_iff a b, key_eq_iff k j)
key_eq_iff _ _ = ground arith

pub ne-key_eq : (k j : Key) → key_eq k j ≡ false → k ≢ j
ne-key_eq k j h e = false≢true (sym h ∙ (key_eq_iff k j).1 e)

abbrev pub GoMap {ℓ} : Type ℓ → Type ℓ
GoMap V = List (Key × V)

module _ {ℓ} {V : Type ℓ} where
  -- v, ok := m[k]
  unfoldable pub lookup : Key → GoMap V → Option V
  lookup k [] = none
  lookup k ((j, v) ∷ m) = if key_eq j k then some v else lookup k m

  -- m[k] = v
  unfoldable pub put : Key → V → GoMap V → GoMap V
  put k v [] = (k, v) ∷ []
  put k v ((j, w) ∷ m) = if key_eq j k then (k, v) ∷ m else (j, w) ∷ put k v m

  pub lookup-put :
      (k j : Key) (v : V) (m : GoMap V)
      → lookup j (put k v m) ≡ (if key_eq k j then some v else lookup j m)
  unfolding lookup put
  lookup-put k j v [] = refl
  lookup-put k j v ((i, w) ∷ m) =
      ground (arith, key_eq_iff k j, key_eq_iff i k, key_eq_iff i j, lookup-put k j v m)

  pub lookup-put_self : (k : Key) (v : V) (m : GoMap V) → lookup k (put k v m) ≡ some v
  lookup-put_self k v m = ground (arith, lookup-put k k v m, key_eq_iff k k)

  pub lookup-put_ne : (k j : Key) (v : V) (m : GoMap V) → k ≢ j → lookup j (put k v m) ≡ lookup j m
  lookup-put_ne k j v m h = ground (arith, lookup-put k j v m, key_eq_iff k j)
