-- ===== src/Resilience/Policy.antt =====
-- core/src/resilience/recovery-policy.ts: recovery policies. Its numbers are natural numbers here.
use oacp.Prelude.{
  ℕ, zero, suc, String, Bool, true, Option, none, some, List, [], ◌∷◌, ◌++◌, or_else, max,
}
use oacp.Js.Set
use oacp.Protocol.Errors.Codes.{
  no_recipient, agent_not_registered, delivery_failed, response_timeout, send_failed,
}

pub record TaskRecoveryPolicy : Type 0 where
  pub max_attempts_per_agent : Option ℕ
  pub max_total_attempts : Option ℕ
  pub retry_backoff_ms : Option ℕ
  pub retryable_task_error_codes : Option (List String)
  pub retryable_transport_error_codes : Option (List String)
  pub fallback_capabilities : Option (List String)
  pub fallback_agents : Option (List String)
  pub exclude_failed_agents : Option Bool

abbrev pub default_retryable_transport_error_codes : List String
default_retryable_transport_error_codes =
    no_recipient ∷ agent_not_registered ∷ delivery_failed ∷ response_timeout ∷ send_failed ∷ []

abbrev pub default_task_recovery_policy : TaskRecoveryPolicy
default_task_recovery_policy = record {
  max_attempts_per_agent = some 1;
  max_total_attempts = none;
  retry_backoff_ms = some 0;
  retryable_task_error_codes = none;
  retryable_transport_error_codes = some default_retryable_transport_error_codes;
  fallback_capabilities = none;
  fallback_agents = none;
  exclude_failed_agents = some true;
}

pub record NormalizedTaskRecoveryPolicy : Type 0 where
  pub max_attempts_per_agent : ℕ
  pub max_total_attempts : Option ℕ
  pub retry_backoff_ms : ℕ
  pub retryable_task_error_codes : List String
  pub retryable_transport_error_codes : List String
  pub fallback_capabilities : List String
  pub fallback_agents : Option (List String)
  pub exclude_failed_agents : Bool

-- A total of 0 is no limit.
positive : Option ℕ → Option ℕ
positive none = none
positive (some zero) = none
positive (some (suc n)) = some (suc n)

unfoldable pub normalize : Option TaskRecoveryPolicy → NormalizedTaskRecoveryPolicy
unfolding positive
normalize policy =
    let p : TaskRecoveryPolicy = or_else policy default_task_recovery_policy in
    record {
      max_attempts_per_agent = max 1 (or_else p.max_attempts_per_agent 1);
      max_total_attempts = positive p.max_total_attempts;
      retry_backoff_ms = or_else p.retry_backoff_ms 0;
      retryable_task_error_codes = or_else p.retryable_task_error_codes [];
      retryable_transport_error_codes =
          or_else p.retryable_transport_error_codes default_retryable_transport_error_codes;
      fallback_capabilities = or_else p.fallback_capabilities [];
      fallback_agents = p.fallback_agents;
      exclude_failed_agents = or_else p.exclude_failed_agents true;
    }

unfoldable pub is_retryable_transport_error : String → NormalizedTaskRecoveryPolicy → Bool
is_retryable_transport_error code policy = Set.has policy.retryable_transport_error_codes code

-- No listed code means that every task error warrants a retry.
includes_or_empty : List String → String → Bool
includes_or_empty [] code = true
includes_or_empty (c ∷ cs) code = Set.has (c ∷ cs) code

unfoldable pub is_retryable_task_error : String → NormalizedTaskRecoveryPolicy → Bool
unfolding includes_or_empty
is_retryable_task_error code policy = includes_or_empty policy.retryable_task_error_codes code

-- One field of `{ ...base, ...override }`.
spread {ℓ} : {A : Type ℓ} → Option A → Option A → Option A
spread base none = base
spread base (some a) = some a

merge : TaskRecoveryPolicy → TaskRecoveryPolicy → TaskRecoveryPolicy
unfolding spread
merge b o = record {
  max_attempts_per_agent = spread b.max_attempts_per_agent o.max_attempts_per_agent;
  max_total_attempts = spread b.max_total_attempts o.max_total_attempts;
  retry_backoff_ms = spread b.retry_backoff_ms o.retry_backoff_ms;
  retryable_task_error_codes = spread b.retryable_task_error_codes o.retryable_task_error_codes;
  retryable_transport_error_codes =
      spread b.retryable_transport_error_codes o.retryable_transport_error_codes;
  fallback_capabilities = spread b.fallback_capabilities o.fallback_capabilities;
  fallback_agents = spread b.fallback_agents o.fallback_agents;
  exclude_failed_agents = spread b.exclude_failed_agents o.exclude_failed_agents;
}

unfoldable pub merge_recovery_policies :
    Option TaskRecoveryPolicy → Option TaskRecoveryPolicy → Option TaskRecoveryPolicy
unfolding merge
merge_recovery_policies none override = override
merge_recovery_policies (some base) none = some base
merge_recovery_policies (some base) (some override) = some (merge base override)

unfoldable pub build_capability_chain :
    String → Option (List String) → Option TaskRecoveryPolicy → List String
build_capability_chain primary step_fallbacks none =
    Set.of_list (primary ∷ or_else step_fallbacks [])
build_capability_chain primary step_fallbacks (some policy) =
    Set.of_list (primary ∷ (or_else step_fallbacks [] ++ or_else policy.fallback_capabilities []))
