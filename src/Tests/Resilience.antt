-- ===== src/Tests/Resilience.antt =====
-- The theorems on resilient sending at concrete inputs.
use oacp.Prelude.{ℕ, zero, suc, none, some, [], ◌∷◌}
use oacp.Protocol.Errors.{runtime_error, ok}
use oacp.Resilience.Policy.{TaskRecoveryPolicy, normalize}
use oacp.Resilience.Send.{
  SendTaskParams, SendTaskOutcome, delivered, undelivered, RuntimeHandle,
  SendTaskWithRecoveryOptions, send_task_with_recovery,
}
use oacp.Resilience.Send.Attempts.{Settles, send_task_with_recovery-Audited}
use oacp.Tests.Data.{collation, input, request_of, response_to}

-- The first sending is not answered in time, and all others are. The world counts the sendings.
abbrev answer : ℕ → SendTaskOutcome
answer zero = undelivered (runtime_error "RESPONSE_TIMEOUT" "no answer" [])
answer (suc n) = delivered (request_of "m1" none) (some (response_to "m1"))

abbrev pub runtime : RuntimeHandle ℕ
runtime = record {
  collation = collation;
  send_sub_task = λ params w. (ok (answer w), suc w);
  find_agents_by_capability = λ capability w. "agent://b" ∷ "agent://a" ∷ [];
  sleep = λ ms w. w;
}

abbrev params : SendTaskParams
params = record {
  capability = "sum";
  input = input;
  to = none;
  deadline_ms = none;
  trace_id = none;
  parent_message_id = none;
  wait_for_response = none;
  timeout_ms = none;
}

abbrev pub twice : TaskRecoveryPolicy
twice = record {
  max_attempts_per_agent = some 2;
  max_total_attempts = some 3;
  retry_backoff_ms = none;
  retryable_task_error_codes = none;
  retryable_transport_error_codes = none;
  fallback_capabilities = none;
  fallback_agents = none;
  exclude_failed_agents = none;
}

abbrev options : SendTaskWithRecoveryOptions
options = record { policy = some twice; step_fallback_capabilities = none }

send_task_with_recovery-Audited_example :
    Settles runtime
      (normalize options.policy).max_total_attempts
      (send_task_with_recovery runtime params options 0).0
send_task_with_recovery-Audited_example = send_task_with_recovery-Audited runtime params options 0
