-- ===== src/Runtime/Retries/Backoff.antt =====
-- The delay between attempts: how it grows, and the bounds that it keeps.
use edufurther_agent_be.Base.{ℕ, zero, suc, ◌+◌, ◌-◌, ◌*◌, ◌^◌, ◌≤◌, min, ◌≡◌, arith}
use edufurther_agent_be.Runtime.Retries.{backoff_seconds, base_backoff_seconds, max_backoff_seconds}
use native.Mathlib.Nat.{pow-suc}

pow_pos : (n : ℕ) → 1 ≤ 2 ^ n
pow_pos zero = omega arith
pow_pos (suc n) = rw pow-suc (omega (arith, pow_pos n))

-- A delay lies between the base and the cap.
pub backoff_seconds_bounds :
    (n : ℕ) → (base_backoff_seconds ≤ backoff_seconds n) × (backoff_seconds n ≤ max_backoff_seconds)
unfolding backoff_seconds
backoff_seconds_bounds n = ground (arith, pow_pos (n - 1))

exponent_above : (n : ℕ) → suc n + 1 - 1 ≡ suc n
exponent_above n = omega arith

exponent_here : (n : ℕ) → suc n - 1 ≡ n
exponent_here n = omega arith

-- From the first attempt on, the next delay is twice the last one, until the cap.
pub backoff_seconds-suc :
    (n : ℕ) → 1 ≤ n → backoff_seconds (n + 1) ≡ min (2 * backoff_seconds n) max_backoff_seconds
unfolding backoff_seconds
backoff_seconds-suc zero h = absurd (omega arith)
backoff_seconds-suc (suc n) h =
    let above : 2 ^ (suc n + 1 - 1) ≡ 2 * 2 ^ n =
      rw (exponent_above n) (rw pow-suc (omega arith)) in
    let here : 2 ^ (suc n - 1) ≡ 2 ^ n = rw (exponent_here n) in
    ground (arith, above, here, pow_pos n)
