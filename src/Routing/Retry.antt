-- ===== src/Routing/Retry.antt =====
-- core/src/routing/retry-policy.ts: retries with exponential backoff. `Math.random()` is the fraction
-- `numerator / denominator`, below 1, and the computation of a delay is exact. The policy's numbers are
-- natural numbers.
pub mod Bounds
pub mod Execute
pub mod Trail
use oacp.Prelude.{
  ℕ, zero, suc, ◌+◌, ◌-◌, ◌*◌, ◌/◌, ◌^◌, min, String, Bool, true, false, ◌||◌, Option, none, some,
  List, [], ◌∷◌, ltb, nat_eq, if◌then◌else◌, or_else,
}

pub record RetryPolicy : Type 0 where
  pub max_attempts : ℕ
  pub initial_backoff_ms : ℕ
  pub max_backoff_ms : ℕ
  pub jitter : Option Bool

-- What `Math.random()` returns.
pub record Fraction : Type 0 where
  pub numerator : ℕ
  pub denominator : ℕ

unfoldable pub compute_backoff_ms : ℕ → RetryPolicy → Fraction → ℕ
compute_backoff_ms zero policy r = 0
compute_backoff_ms (suc n) policy r =
    let capped : ℕ = min policy.max_backoff_ms (policy.initial_backoff_ms * 2 ^ n) in
    if or_else policy.jitter true
    then (capped * (r.denominator + r.numerator)) / (2 * r.denominator)
    else capped

abbrev pub default_retry_policy : RetryPolicy
default_retry_policy = record {
  max_attempts = 3;
  initial_backoff_ms = 100;
  max_backoff_ms = 5000;
  jitter = some true;
}
