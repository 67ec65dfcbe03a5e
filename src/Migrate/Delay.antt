-- ===== src/Migrate/Delay.antt =====
-- The delay between two attempts of runWithRetry.
use sqddl.Base.{ℕ, ◌*◌, ◌/◌, ◌%◌, ◌^◌, ◌<◌, ◌≤◌, none, some, ◌≡◌, ◌↔◌, arith}
use sqddl.Migrate.Retry.{delay_bound, clamp_delay}
use native.Mathlib.Nat.{pow-le-pow_right, mul-le-mul_left}

-- For a base delay that is not above the maximum, the delay is between the two, whatever number of
-- seconds is drawn.
pub clamp_delay-bounds :
    (base most picked : ℕ)
    → base ≤ most
    → (base ≤ clamp_delay base most picked) × (clamp_delay base most picked ≤ most)
unfolding clamp_delay
clamp_delay-bounds base most picked h = (ground arith, ground arith)

delay_bound-range :
    (base k : ℕ)
    → base * 2 ^ k < 2 ^ 63
    → 1000000000 ≤ base * 2 ^ k
    → (n : ℕ) × (delay_bound base k ≡ some n)
unfolding delay_bound
delay_bound-range base k lt ge = (base * 2 ^ k % 2 ^ 64 / 1000000000, ground arith)

-- While the base delay doubled `attempts` times fits into an int64, rng.Intn panics exactly where it
-- is shorter than a second: on the first retry, for a base delay below half a second.
pub delay_bound-none :
    (base attempts : ℕ)
    → base * 2 ^ attempts < 2 ^ 63
    → (delay_bound base attempts ≡ none) ↔ (base * 2 ^ attempts < 1000000000)
unfolding delay_bound
delay_bound-none base attempts h = ground arith

pub delay_bound-some :
    (base k most : ℕ)
    → 500000000 ≤ base
    → 0 < k
    → k < most
    → base * 2 ^ most < 2 ^ 63
    → (n : ℕ) × (delay_bound base k ≡ some n)
delay_bound-some base k most least pos lt h =
    let up =
      mul-le-mul_left base
        (pow-le-pow_right {n = 2} (omega arith) {i = k} {j = most} (omega arith)) in
    let two =
      mul-le-mul_left base (pow-le-pow_right {n = 2} (omega arith) {i = 1} {j = k} (omega arith)) in
    delay_bound-range base k (omega arith) (omega arith)
