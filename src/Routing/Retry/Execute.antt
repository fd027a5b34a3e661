-- ===== src/Routing/Retry/Execute.antt =====
-- `normalizeRetryPolicy` and `executeWithRetry` of core/src/routing/retry-policy.ts. The function that is
-- tried, the sleeping and `onRetry` act on a world. A policy's numbers are natural, so none is negative.
use oacp.Prelude.{
  ℕ, zero, suc, ◌-◌, String, Bool, true, false, Option, none, some, ltb, nat_eq, if◌then◌else◌,
}
use oacp.Routing.Retry.{RetryPolicy, Fraction, compute_backoff_ms}

abbrev pub no_retry_policy : RetryPolicy
no_retry_policy = record {
  max_attempts = 1;
  initial_backoff_ms = 0;
  max_backoff_ms = 0;
  jitter = some false;
}

-- A policy, or the message of the error.
pub data Normalized : Type 0 where
  normal : RetryPolicy → Normalized
  refused : String → Normalized

unfoldable pub normalize_retry_policy : RetryPolicy → Normalized
normalize_retry_policy p =
    if ltb p.max_attempts 1
    then refused "RetryPolicy.maxAttempts must be >= 1"
    else if ltb p.max_backoff_ms p.initial_backoff_ms
    then refused "RetryPolicy.maxBackoffMs must be >= initialBackoffMs"
    else normal p

-- What one attempt gives: a value, or the error that it throws.
pub data Attempted (A E : Type 0) : Type 0 where
  returned : A → Attempted A E
  threw : E → Attempted A E

pub record RetryAttemptInfo (E : Type 0) : Type 0 where
  pub attempt : ℕ
  pub delay_ms : ℕ
  pub error : E

pub record ExecuteWithRetryOptions (E W : Type 0) : Type 0 where
  pub should_retry : Option (E → ℕ → Bool)
  pub on_retry : Option (RetryAttemptInfo E → W → W)
  pub sleep : ℕ → W → W
  -- What `Math.random()` returns after an attempt.
  pub random : ℕ → Fraction

module _ {A E W : Type 0} (fn : ℕ → W → Attempted A E × W) (options : ExecuteWithRetryOptions E W)
    (policy : RetryPolicy) where
  unfoldable pub wants_retry : E → ℕ → Bool
  wants_retry e attempt = elim options.should_retry [ none ↦ true | some f ↦ f e attempt ]

  unfoldable pub told : RetryAttemptInfo E → W → W
  told info w = elim options.on_retry [ none ↦ w | some f ↦ f info w ]

  -- Between two attempts.
  unfoldable pub pause : E → ℕ → W → W
  pause e attempt w =
      let delay : ℕ = compute_backoff_ms attempt policy (options.random attempt) in
      let next : W = told (record { attempt = attempt; delay_ms = delay; error = e }) w in
      if nat_eq delay 0 then next else options.sleep delay next

  -- The attempt of a number, and at most as many more as the first argument says.
  unfoldable pub attempts_from : ℕ → ℕ → W → Attempted A E × W
  attempts_from zero attempt w = fn attempt w
  attempts_from (suc left) attempt w =
      let (outcome, after) = fn attempt w in
      elim outcome [
        | returned a ↦ (returned a, after)
        | threw e ↦
            let rest : Attempted A E × W =
              attempts_from left (suc attempt) (pause e attempt after) in
            if wants_retry e attempt then rest else (threw e, after)
      ]

-- What `executeWithRetry` gives: the outcome of its attempts, or the error of a policy that is refused.
pub data Executed (A E : Type 0) : Type 0 where
  executed : Attempted A E → Executed A E
  bad_policy : String → Executed A E

unfoldable pub execute_with_retry :
    {A E W : Type 0}
    → (ℕ → W → Attempted A E × W)
    → RetryPolicy
    → ExecuteWithRetryOptions E W
    → W
    → Executed A E × W
execute_with_retry fn policy_input options w = elim (normalize_retry_policy policy_input) [
  | refused message ↦ (bad_policy message, w)
  | normal policy ↦
      let (outcome, after) = attempts_from fn options policy (policy.max_attempts - 1) 1 w in
      (executed outcome, after)
]
