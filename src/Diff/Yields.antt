-- ===== src/Diff/Yields.antt =====
-- Calls that do not panic, and the loops of Lookups and Steps over them.
use sqddl.Base.{
  ℕ, zero, suc, Bool, true, false, List, [], ◌∷◌, Option, none, some, ◌≡◌, refl, sym, subst,
  if◌then◌else◌, All, get_elem?, Bytes, text_eq, ◌&&◌, not,
}
use sqddl.Cache.Slots.{Outcome, ret, ◌>>=◌}
use sqddl.Cache.Slots.Named.{live_named}
use sqddl.Diff.Lookups.{keep_missing, missing, put_altered, sort_compared, compared}
use sqddl.Diff.Steps.{each_step}

-- The call returns, and its result has the property.
pub record Yields {A : Type 0} (P : A → Type 0) (m : Outcome A) : Type 0 where
  pub result : A
  pub returns : m ≡ ret result
  pub has : P result

-- The call returns.
abbrev pub Returns : {A : Type 0} → Outcome A → Type 0
Returns = Yields (λ a. Unit)

module _ {A : Type 0} (P : A → Type 0) where
  pub Yields-ret : (a : A) → P a → Yields P (ret a)
  Yields-ret a p = record { result = a; returns = refl; has = p }

  pub Yields-of : (m : Outcome A) (a : A) → m ≡ ret a → P a → Yields P m
  Yields-of m a e p = record { result = a; returns = e; has = p }

  pub Yields-if :
      (b : Bool) (m n : Outcome A) → Yields P m → Yields P n → Yields P (if b then m else n)
  Yields-if true m n p q = p
  Yields-if false m n p q = q

  -- what holds of the object that is found, if one is
  abbrev pub IfFound : Option A → Type 0
  IfFound none = Unit
  IfFound (some a) = P a

  pub All-found :
      (ignored : A → Bool) (name : A → Bytes) (n : Bytes) (xs : List A)
      → All P xs
      → IfFound (live_named ignored name n xs)
  unfolding live_named
  All-found ignored name n [] h = tt
  All-found ignored name n (x ∷ xs) (p, h) =
      by_test (not (ignored x) && text_eq (name x) n) _ (All-found ignored name n xs h)
    where
      by_test : (b : Bool) (rest : Option A) → IfFound rest → IfFound (if b then some x else rest)
      by_test true rest q = p
      by_test false rest q = q

  pub All_of_each : (xs : List A) → ((i : ℕ) (a : A) → get_elem? xs i ≡ some a → P a) → All P xs
  All_of_each [] h = tt
  All_of_each (x ∷ xs) h = (h zero x refl, All_of_each xs (λ i a e. h (suc i) a e))

module _ {A B : Type 0} (Q : A → Type 0) (P : B → Type 0) where
  pub Yields-bind :
      (m : Outcome A) (f : A → Outcome B)
      → Yields Q m
      → ((a : A) → Q a → Yields P (f a))
      → Yields P (m >>= f)
  Yields-bind m f y h = subst (λ m. Yields P (m >>= f)) (sym y.returns) (h y.result y.has)

module _ {A : Type 0} where
  pub Returns-ret : (a : A) → Returns (ret a)
  Returns-ret a = Yields-ret (λ a. Unit) a tt

  pub Returns-if :
      (b : Bool) (m n : Outcome A) → Returns m → Returns n → Returns (if b then m else n)
  Returns-if = Yields-if (λ a. Unit)

module _ {A B : Type 0} where
  pub Returns-bind :
      (m : Outcome A) (f : A → Outcome B)
      → Returns m
      → ((a : A) → Returns (f a))
      → Returns (m >>= f)
  Returns-bind m f y h = Yields-bind (λ a. Unit) (λ a. Unit) m f y (λ a u. h a)

pub each_step-Returns {ℓ} :
    {A : Type ℓ} {S : Type 0} (P : A → Type 0) (step : A → S → Outcome S)
    → ((x : A) (s : S) → P x → Returns (step x s))
    → (xs : List A) → All P xs
    → (s : S) → Returns (each_step step xs s)
unfolding each_step
each_step-Returns P step h [] p s = Returns-ret s
each_step-Returns P step h (x ∷ xs) (p, ps) s =
    Returns-bind (step x s) (each_step step xs) (h x s p)
      (λ next. each_step-Returns P step h xs ps next)

module _ {A B : Type 0} where
  pub missing-Returns :
      (skip : A → Bool) (find : A → Outcome (Option B))
      → ((x : A) → Returns (find x))
      → (xs : List A) → Returns (missing skip find xs)
  unfolding missing
  missing-Returns skip find h [] = Returns-ret []
  missing-Returns skip find h (x ∷ xs) =
      let rest = missing-Returns skip find h xs in
      Returns-if (skip x) _ _ rest (
        Returns-bind (find x) _ (h x) (λ found.
          Returns-bind (missing skip find xs) _ rest
            (λ others. Returns-ret (keep_missing x found others))))

module _ {A : Type 0} (P : A → Type 0) where
  sort_compared-Returns :
      (different : A → A → Outcome Bool) (x : A) (rest : List A × List (A × A)) (o : Option A)
      → ((old : A) → P old → Returns (different old x))
      → IfFound P o
      → Returns (sort_compared different x rest o)
  sort_compared-Returns different x rest none h f = Returns-ret (x ∷ rest.0, rest.1)
  sort_compared-Returns different x rest (some old) h f =
      Returns-bind (different old x) _ (h old f) (λ b. Returns-ret (put_altered old x rest b))

  pub compared-Returns :
      (skip : A → Bool) (find : A → Outcome (Option A)) (different : A → A → Outcome Bool)
      → ((x : A) → Yields (IfFound P) (find x))
      → ((old x : A) → P old → P x → Returns (different old x))
      → (xs : List A) → All P xs
      → Returns (compared skip find different xs)
  unfolding compared
  compared-Returns skip find different h d [] p = Returns-ret ([], [])
  compared-Returns skip find different h d (x ∷ xs) (p, ps) =
      let rest = compared-Returns skip find different h d xs ps in
      Returns-if (skip x) _ _ rest (
        Yields-bind (IfFound P) (λ a. Unit) (find x) _ (h x)
          (λ found f.
            Returns-bind (compared skip find different xs) _ rest
              (λ others. sort_compared-Returns different x others found (λ old q. d old x q p) f)))

-- The call returns, whatever it returns.
pub Returns-of_Yields : {A : Type 0} (P : A → Type 0) (m : Outcome A) → Yields P m → Returns m
Returns-of_Yields P m y = record { result = y.result; returns = y.returns; has = tt }

pub each_step-Returns_any {ℓ} :
    {A : Type ℓ} {S : Type 0} (step : A → S → Outcome S)
    → ((x : A) (s : S) → Returns (step x s))
    → (xs : List A) (s : S) → Returns (each_step step xs s)
unfolding each_step
each_step-Returns_any step h [] s = Returns-ret s
each_step-Returns_any step h (x ∷ xs) s =
    Returns-bind (step x s) (each_step step xs) (h x s) (each_step-Returns_any step h xs)
