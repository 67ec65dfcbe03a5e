-- ===== src/Diff/Returns.antt =====
-- What a call that may panic returns if it returns, and the loops of Steps: the rules for invariants.
use sqddl.Base.{Bool, true, false, List, [], ◌∷◌, if◌then◌else◌}
use sqddl.Cache.Slots.{Outcome, ret, panic, ◌>>=◌}
use sqddl.Diff.Steps.{each_step}

-- If the call returns, its result has the property.
abbrev pub IfReturns {ℓ κ} : {A : Type ℓ} → (A → Type κ) → Outcome A → Type κ
IfReturns P (ret a) = P a
IfReturns P panic = Unit

module _ {A B : Type 0} (P : B → Type 0) where
  pub IfReturns-bind :
      (m : Outcome A) (f : A → Outcome B) → ((a : A) → IfReturns P (f a)) → IfReturns P (m >>= f)
  IfReturns-bind (ret a) f h = h a
  IfReturns-bind panic f h = tt

  pub IfReturns-bind_with :
      (Q : A → Type 0) (m : Outcome A) (f : A → Outcome B)
      → IfReturns Q m
      → ((a : A) → Q a → IfReturns P (f a))
      → IfReturns P (m >>= f)
  IfReturns-bind_with Q (ret a) f q h = h a q
  IfReturns-bind_with Q panic f q h = tt

-- A loop keeps what each of its steps keeps.
pub each_step-IfReturns {ℓ} :
    {A : Type ℓ} {S : Type 0} (P : S → Type 0) (step : A → S → Outcome S)
    → ((x : A) (s : S) → P s → IfReturns P (step x s))
    → (xs : List A) (s : S) → P s
    → IfReturns P (each_step step xs s)
unfolding each_step
each_step-IfReturns P step keep [] s p = p
each_step-IfReturns P step keep (x ∷ xs) s p =
    IfReturns-bind_with P P (step x s) _ (keep x s p)
      (λ next q. each_step-IfReturns P step keep xs next q)

pub IfReturns-if :
    {A : Type 0} (P : A → Type 0) (b : Bool) (m n : Outcome A)
    → IfReturns P m
    → IfReturns P n
    → IfReturns P (if b then m else n)
IfReturns-if P true m n p q = p
IfReturns-if P false m n p q = q
