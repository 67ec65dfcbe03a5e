-- ===== src/Helpers/Versions.antt =====
-- ddl/ddl.go: VersionNums and its comparisons, for numbers that are not negative.
use sqddl.Base.{
  ℕ, ◌<◌, Bool, true, false, not, List, [], ◌∷◌, ◌≡◌, ◌↔◌, inl, inr, refl, ltb, if◌then◌else◌,
  arith, Bool-cases, false≢true, ltb→lt,
}

unfoldable pub lower_than : List ℕ → List ℕ → Bool
lower_than [] nums = false
lower_than (v ∷ vs) [] = false
lower_than (v ∷ vs) (n ∷ nums) =
    let rest = lower_than vs nums in if ltb n v then false else if ltb v n then true else rest

unfoldable pub greater_or_equal_to : List ℕ → List ℕ → Bool
greater_or_equal_to version nums = not (lower_than version nums)

-- Two versions agree up to a place where the first is smaller.
pub data IsLower : List ℕ → List ℕ → Type 0 where
  here : {v n : ℕ} (vs ns : List ℕ) → v < n → IsLower (v ∷ vs) (n ∷ ns)
  behind : {vs ns : List ℕ} (v : ℕ) → IsLower vs ns → IsLower (v ∷ vs) (v ∷ ns)

behind_as : {v n : ℕ} {vs ns : List ℕ} → v ≡ n → IsLower vs ns → IsLower (v ∷ vs) (n ∷ ns)
behind_as {v} {n} e h = rw e (behind n h)

lower_than_sound : (vs ns : List ℕ) → lower_than vs ns ≡ true → IsLower vs ns
unfolding lower_than
lower_than_sound [] ns h = absurd (false≢true h)
lower_than_sound (v ∷ vs) [] h = absurd (false≢true h)
lower_than_sound (v ∷ vs) (n ∷ ns) h = elim (Bool-cases (ltb v n)) [
  | inl lt ↦ here vs ns (ltb→lt v n lt)
  | inr ge ↦ behind_as (ground arith) (lower_than_sound vs ns (ground arith))
]

lower_than_complete : {vs ns : List ℕ} → IsLower vs ns → lower_than vs ns ≡ true
unfolding lower_than
lower_than_complete (here {v} {n} vs ns h) = ground arith
lower_than_complete (behind {vs} {ns} v h) = ground (arith, lower_than_complete h)

-- LowerThan compares two versions number by number: it says yes exactly if they agree up to a place
-- where the database's number is the smaller one. GreaterOrEqualTo says no exactly then.
pub lower_than_iff :
    (version nums : List ℕ)
    → ((lower_than version nums ≡ true) ↔ IsLower version nums)
      × ((greater_or_equal_to version nums ≡ false) ↔ IsLower version nums)
unfolding greater_or_equal_to
lower_than_iff version nums = (
  (lower_than_sound version nums, lower_than_complete),
  (λ h. lower_than_sound version nums (ground arith), λ l. rw (lower_than_complete l) refl),
)
