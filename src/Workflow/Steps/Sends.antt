-- ===== src/Workflow/Steps/Sends.antt =====
-- A step of core/src/resilience/step-executor.ts has a result where no sending of its runtime rejects.
use oacp.Prelude.{ℕ, ◌≡◌, refl, ap, sym, ◌∙◌, Option, some, Option-cases, inl, inr}
use oacp.Protocol.Json.{Fields}
use oacp.Protocol.Errors.{Result, ok, err, map_result}
use oacp.Resilience.Policy.{merge_recovery_policies}
use oacp.Resilience.Send.{SendTaskParams, SendTaskOutcome, ResilientSendTaskOutcome, RuntimeHandle}
use oacp.Resilience.Send.Attempts.{Settles, send_task_with_recovery-Audited}
use oacp.Workflow.Plan.{SubtaskPlanStep, SubtaskPlanStepResult}
use oacp.Workflow.Steps.{
  StepTaskContext, StepTaskExecutionOptions, direct_result, recovery_result, execute_step_task,
}

-- No sending rejects.
abbrev pub Sends : {W : Type 0} → RuntimeHandle W → Type 0
Sends {W} runtime =
    (p : SendTaskParams) (w : W) → (o : SendTaskOutcome) × ((runtime.send_sub_task p w).0 ≡ ok o)

Settles-ok :
    {W : Type 0} (runtime : RuntimeHandle W) (limit : Option ℕ)
    (r : Result ResilientSendTaskOutcome)
    → Sends runtime
    → Settles runtime limit r
    → (o : ResilientSendTaskOutcome) × (r ≡ ok o)
Settles-ok runtime limit (ok o) sends v = (o, refl)
Settles-ok runtime limit (err e) sends (p, w, rejected) =
    let (o, sent) = sends p w in absurd (cc (sym sent ∙ rejected))

pub execute_step_task-ok :
    {W : Type 0} (ctx : StepTaskContext W) (step : SubtaskPlanStep) (input : Fields)
    (options : StepTaskExecutionOptions) (w : W)
    → Sends ctx.runtime
    → (r : SubtaskPlanStepResult) × ((execute_step_task ctx step input options w).0 ≡ ok r)
unfolding execute_step_task
execute_step_task-ok ctx step input options w sends =
    elim (Option-cases (merge_recovery_policies options.recovery step.recovery)) [
      | inl direct ↦
          let (o, sent) = sends _ w in
          rw (direct, execute_step_task)
            (
              direct_result ctx.agent_id step o,
              ap (map_result (direct_result ctx.agent_id step)) sent,
            )
      | inr (policy, h) ↦
          let (o, sent) = Settles-ok ctx.runtime _ _ sends (
            send_task_with_recovery-Audited ctx.runtime _
              (record {
                policy = some policy;
                step_fallback_capabilities = step.fallback_capabilities;
              })
              w) in
          rw (h, execute_step_task)
            (
              recovery_result ctx.agent_id step o,
              ap (map_result (recovery_result ctx.agent_id step)) sent,
            )
    ]
