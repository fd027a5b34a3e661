-- ===== src/Tests/Retry.antt =====
-- Retries at concrete inputs.
use oacp.Prelude.{
  ℕ, ◌≤◌, ◌-◌, ◌/◌, String, ◌≡◌, ◌⊎◌, none, List, [], length, ltb, if◌then◌else◌, arith,
}
use oacp.Routing.Retry.{Fraction, default_retry_policy, compute_backoff_ms}
use oacp.Routing.Retry.Execute.{
  Attempted, returned, threw, ExecuteWithRetryOptions, executed, bad_policy, execute_with_retry,
}
use oacp.Routing.Retry.Trail.{
  Entry, logging, beside_log, wants, IsTrail, execute_with_retry-IsTrail,
}
use oacp.Routing.Retry.Bounds.{cap, compute_backoff_ms_bounds}

abbrev half : Fraction
half = record { numerator = 1; denominator = 2 }

compute_backoff_ms_bounds_example :
    (cap 1 default_retry_policy / 2 ≤ compute_backoff_ms 2 default_retry_policy half)
    × (compute_backoff_ms 2 default_retry_policy half ≤ cap 1 default_retry_policy)
    × (compute_backoff_ms 2 default_retry_policy half ≤ default_retry_policy.max_backoff_ms)
compute_backoff_ms_bounds_example =
    compute_backoff_ms_bounds 1 default_retry_policy half (omega arith)

-- The first two attempts fail.
abbrev third_time : ℕ → ℕ → Attempted String String × ℕ
third_time attempt w = (if ltb attempt 3 then threw "no answer" else returned "done", w)

abbrev plain : ExecuteWithRetryOptions String ℕ
plain = record { should_retry = none; on_retry = none; sleep = λ ms w. w; random = λ n. half }

execute_with_retry-IsTrail_example :
    ((message : String) × (execute_with_retry
          (logging third_time)
          default_retry_policy
          (beside_log plain)
          ([], 0)
        ≡ (bad_policy message, ([], 0))))
    ⊎ ((outcome : Attempted String String) × (log : List (Entry String String)) × (after : ℕ)
        × (execute_with_retry (logging third_time) default_retry_policy (beside_log plain) ([], 0)
            ≡ (executed outcome, (log, after)))
        × IsTrail
            (wants third_time plain default_retry_policy)
            (default_retry_policy.max_attempts - 1)
            1
            log
            outcome
        × (length log ≤ default_retry_policy.max_attempts))
execute_with_retry-IsTrail_example =
    execute_with_retry-IsTrail third_time plain default_retry_policy 0
