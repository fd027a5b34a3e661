-- ===== src/Workflow/Steps/Trail.antt =====
-- The results of steps that are executed with recovery.
use oacp.Prelude.{ℕ, String, ◌≡◌, ◌⊎◌, refl, Option, none, some, List, arith, inl, inr}
use oacp.Protocol.Json.{Fields}
use oacp.Protocol.Errors.{Result, ok, err, map_result}
use oacp.Protocol.Messages.{success, error, TaskResponseMessage}
use oacp.Resilience.Policy.{TaskRecoveryPolicy, normalize, merge_recovery_policies}
use oacp.Resilience.Send.{
  SendTaskParams, RuntimeHandle, TaskRecoveryAttempt, ResilientSendTaskOutcome, recovered,
  exhausted, task_error_of,
}
use oacp.Resilience.Send.Audit.{IsFailed, IsRecovered, Audited}
use oacp.Resilience.Send.Attempts.{Settles, send_task_with_recovery-Audited}
use oacp.Workflow.Plan.{SubtaskPlanStep, SubtaskPlanStepResult}
use oacp.Workflow.Steps.{
  StepTaskContext, StepTaskExecutionOptions, status_of, recovery_result, execute_step_task,
}

-- The result has a trail: of failures where the status is `error`, and otherwise one that ends with a success for
-- the capability of the result.
abbrev pub HasTrail : Option ℕ → SubtaskPlanStepResult → Type 0
HasTrail limit r =
    (attempts : List TaskRecoveryAttempt) × (r.recovery_attempts ≡ some attempts)
    × (((r.status ≡ error) × IsFailed limit attempts)
        ⊎ ((r.status ≡ success)
            × (response : Option TaskResponseMessage) × (agent : String) × IsRecovered limit
                attempts response agent r.capability))

status_of-success :
    (response : Option TaskResponseMessage)
    → task_error_of response ≡ none
    → status_of response ≡ success
unfolding task_error_of status_of
status_of-success none h = refl
status_of-success (some r) h = ground (arith, h)

recovery_result-HasTrail :
    (limit : Option ℕ) (agent : String) (step : SubtaskPlanStep) (o : ResilientSendTaskOutcome)
    → Audited limit o
    → HasTrail limit (recovery_result agent step o)
unfolding recovery_result
recovery_result-HasTrail limit agent step (exhausted e attempts) v = (attempts, refl, inl (refl, v))
recovery_result-HasTrail limit agent step (recovered request response attempts selected capability)
      v =
    (attempts, refl, inr (status_of-success response v.no_error, response, selected, v))

-- A result has its trail, and a rejection is one of a sending.
abbrev pub Trailed :
    {W : Type 0} → RuntimeHandle W → Option ℕ → Result SubtaskPlanStepResult → Type 0
Trailed runtime limit (ok r) = HasTrail limit r
Trailed {W} runtime limit (err e) =
    (p : SendTaskParams) × (w : W) × ((runtime.send_sub_task p w).0 ≡ err e)

recovery_result-Trailed :
    {W : Type 0} (runtime : RuntimeHandle W) (limit : Option ℕ) (agent : String)
    (step : SubtaskPlanStep) (o : Result ResilientSendTaskOutcome)
    → Settles runtime limit o
    → Trailed runtime limit (map_result (recovery_result agent step) o)
recovery_result-Trailed runtime limit agent step (ok o) v =
    recovery_result-HasTrail limit agent step o v
recovery_result-Trailed runtime limit agent step (err e) v = v

-- A step that is executed under a recovery policy rejects only with the error with which a sending of the
-- runtime rejects. Otherwise it has in its result the trail
-- of the attempts, numbered and no longer than the policy's limit: failures only where the status is
-- `error`; and where it is `success`, failures and then one success, for the capability of the result.
pub execute_step_task-HasTrail :
    {W : Type 0} (ctx : StepTaskContext W) (step : SubtaskPlanStep) (input : Fields)
    (options : StepTaskExecutionOptions) (policy : TaskRecoveryPolicy) (w : W)
    → merge_recovery_policies options.recovery step.recovery ≡ some policy
    → Trailed ctx.runtime
        (normalize (some policy)).max_total_attempts
        (execute_step_task ctx step input options w).0
unfolding execute_step_task
execute_step_task-HasTrail ctx step input options policy w h =
    rw (h, execute_step_task)
      (recovery_result-Trailed ctx.runtime _ ctx.agent_id step _ (
        send_task_with_recovery-Audited ctx.runtime _
          (record { policy = some policy; step_fallback_capabilities = step.fallback_capabilities })
          w))
