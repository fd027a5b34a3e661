-- ===== src/Routing/Retry/Bounds.antt =====
-- The delays between attempts.
use native.Mathlib.Nat.{
  div-lt_iff_lt-mul, le-div_iff_mul-le, div-mul-le_self, mul-le-mul_left, mul-le-mul_right,
}
use oacp.Prelude.{ℕ, suc, ◌+◌, ◌*◌, ◌/◌, ◌≤◌, ◌<◌, ◌^◌, min, arith}
use oacp.Routing.Retry.{RetryPolicy, Fraction, compute_backoff_ms}

jitter_above : (c k d : ℕ) → k < d → (c * (d + k)) / (2 * d) ≤ c
jitter_above c k d h = omega (
  arith,
  (div-lt_iff_lt-mul {k = 2 * d} {x = c * (d + k)} {y = c + 1} (omega (arith, h))).1
      (omega (arith, mul-le-mul_left {m = k} {n = d} c (omega (arith, h)), h)),
)

jitter_below : (c k d : ℕ) → k < d → c / 2 ≤ (c * (d + k)) / (2 * d)
jitter_below c k d h =
    (le-div_iff_mul-le {k = 2 * d} {x = c / 2} {y = c * (d + k)} (omega (arith, h))).1
      (omega (arith, mul-le-mul_right d (div-mul-le_self c 2)))

-- The delay after the attempt `n + 1`, without jitter: the initial delay is doubled by each attempt, up to
-- the limit.
abbrev pub cap : ℕ → RetryPolicy → ℕ
cap n policy = min policy.max_backoff_ms (policy.initial_backoff_ms * 2 ^ n)

-- With or without jitter, where `Math.random()` is below 1, the delay after an attempt is at least half of
-- the delay that doubles with each attempt up to the policy's limit, at most all of it, and within the
-- limit.
pub compute_backoff_ms_bounds :
    (n : ℕ) (policy : RetryPolicy) (r : Fraction)
    → r.numerator < r.denominator
    → (cap n policy / 2 ≤ compute_backoff_ms (suc n) policy r)
      × (compute_backoff_ms (suc n) policy r ≤ cap n policy)
      × (compute_backoff_ms (suc n) policy r ≤ policy.max_backoff_ms)
unfolding compute_backoff_ms
compute_backoff_ms_bounds n policy r h =
    let above = jitter_above (cap n policy) r.numerator r.denominator h in
    let below = jitter_below (cap n policy) r.numerator r.denominator h in
    (ground (arith, above, below), ground (arith, above, below), ground (arith, above, below))
