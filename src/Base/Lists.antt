-- ===== src/Base/Lists.antt =====
-- Lists measured and indexed by native numbers, under the library's names.
use Prim.Native.Nat.{ℕ, zero, suc, ◌+◌, ◌<◌}
use mathlib.Core.Path.{◌≡◌, refl, ap}
use mathlib.Core.Logic.{◌≢◌, ◌⊎◌, inl, inr}
use mathlib.Core.List.{List, [], ◌∷◌, ◌++◌}
use mathlib.Core.Option.{Option, none, some}
use native.Mathlib.Omega.{arith}
use sqddl.Base.Tests.{some-eq_of_eq}

module _ {ℓ} {A : Type ℓ} where
  abbrev pub length : List A → ℕ
  length [] = 0
  length (x ∷ xs) = suc (length xs)

  abbrev pub get_elem? : List A → ℕ → Option A
  get_elem? [] i = none
  get_elem? (x ∷ xs) zero = some x
  get_elem? (x ∷ xs) (suc i) = get_elem? xs i

  -- A write out of bounds changes nothing.
  abbrev pub set : List A → ℕ → A → List A
  set [] i v = []
  set (x ∷ xs) zero v = v ∷ xs
  set (x ∷ xs) (suc i) v = x ∷ set xs i v

  abbrev pub take : ℕ → List A → List A
  take zero xs = []
  take (suc n) [] = []
  take (suc n) (x ∷ xs) = x ∷ take n xs

  abbrev pub All {κ} : (A → Type κ) → List A → Type κ
  All P [] = Unit
  All P (x ∷ xs) = P x × All P xs

module _ {ℓ} {A : Type ℓ} where
  pub length-append : (xs ys : List A) → length (xs ++ ys) ≡ length xs + length ys
  length-append [] ys = omega arith
  length-append (x ∷ xs) ys = omega (arith, length-append xs ys)

  pub length-set : (xs : List A) (i : ℕ) (v : A) → length (set xs i v) ≡ length xs
  length-set [] i v = refl
  length-set (x ∷ xs) zero v = refl
  length-set (x ∷ xs) (suc i) v = ap suc (length-set xs i v)

  pub All-append {κ} : (P : A → Type κ) (xs ys : List A) → All P xs → All P ys → All P (xs ++ ys)
  All-append P [] ys h k = k
  All-append P (x ∷ xs) ys (p, h) k = (p, All-append P xs ys h k)

  pub get_elem?-append_end : (xs : List A) (x : A) → get_elem? (xs ++ x ∷ []) (length xs) ≡ some x
  get_elem?-append_end [] x = refl
  get_elem?-append_end (y ∷ xs) x = get_elem?-append_end xs x

  pub get_elem?-append_left :
      (xs : List A) (x : A) (i : ℕ) {v : A}
      → get_elem? xs i ≡ some v
      → get_elem? (xs ++ x ∷ []) i ≡ some v
  get_elem?-append_left [] x i h = cc
  get_elem?-append_left (y ∷ xs) x zero h = h
  get_elem?-append_left (y ∷ xs) x (suc i) h = get_elem?-append_left xs x i h

  pub get_elem?-set_self :
      (xs : List A) (i : ℕ) {v : A} (w : A)
      → get_elem? xs i ≡ some v
      → get_elem? (set xs i w) i ≡ some w
  get_elem?-set_self [] i w h = cc
  get_elem?-set_self (x ∷ xs) zero w h = refl
  get_elem?-set_self (x ∷ xs) (suc i) w h = get_elem?-set_self xs i w h

  pub get_elem?-set_ne :
      (xs : List A) (i j : ℕ) (v : A) → i ≢ j → get_elem? (set xs i v) j ≡ get_elem? xs j
  get_elem?-set_ne [] i j v h = refl
  get_elem?-set_ne (x ∷ xs) zero zero v h = absurd (h refl)
  get_elem?-set_ne (x ∷ xs) zero (suc j) v h = refl
  get_elem?-set_ne (x ∷ xs) (suc i) zero v h = refl
  get_elem?-set_ne (x ∷ xs) (suc i) (suc j) v h = get_elem?-set_ne xs i j v (λ e. h (ap suc e))

  pub get_elem?-lt : (xs : List A) (i : ℕ) {v : A} → get_elem? xs i ≡ some v → i < length xs
  get_elem?-lt [] i h = cc
  get_elem?-lt (x ∷ xs) zero h = omega arith
  get_elem?-lt (x ∷ xs) (suc i) h = omega (arith, get_elem?-lt xs i h)

  pub get_elem?-append_inv :
      (xs : List A) (x : A) (i : ℕ) {v : A}
      → get_elem? (xs ++ x ∷ []) i ≡ some v
      → (get_elem? xs i ≡ some v) ⊎ ((i ≡ length xs) × (x ≡ v))
  get_elem?-append_inv [] x zero h = inr (refl, some-eq_of_eq h)
  get_elem?-append_inv [] x (suc i) h = cc
  get_elem?-append_inv (y ∷ xs) x zero h = inl h
  get_elem?-append_inv (y ∷ xs) x (suc i) h = lift (get_elem?-append_inv xs x i h)
    where
      lift :
          {v : A}
          → (get_elem? xs i ≡ some v) ⊎ ((i ≡ length xs) × (x ≡ v))
          → (get_elem? xs i ≡ some v) ⊎ ((suc i ≡ suc (length xs)) × (x ≡ v))
      lift (inl p) = inl p
      lift (inr (p, q)) = inr (ap suc p, q)
