-- ===== src/Workflow/Decompose/Outcomes.antt =====
-- Every planning and execution of core/src/workflow/execute-subtask-plan.ts ends.
use oacp.Prelude.{String, ◌≡◌, refl, sym, ap, Option, some, [], subst, ◌⊎◌, inl, inr, or_else}
use oacp.Protocol.Json.{Fields}
use oacp.Protocol.Errors.{OacpError, workflow_error, Result, ok, err}
use oacp.Protocol.Errors.Codes.{planner_failed}
use oacp.Workflow.Plan.{SubtaskPlan}
use oacp.Workflow.Validation.{validate_subtask_plan}
use oacp.Workflow.Validation.Accepts.{validate_subtask_plan-total}
use oacp.Workflow.Dag.{SubtaskPlanExecutionResult, Execution, execute_dag_plan}
use oacp.Workflow.Steps.Sends.{Sends, execute_step_task-ok}
use oacp.Workflow.Dag.Quiet.{IsQuiet, input-ok}
use oacp.Workflow.Definition.{resolve_step_input_for_handler}
use oacp.Workflow.Dag.Resolves.{Resolves, execute_dag_plan-resolves}
use oacp.Workflow.Decompose.{
  ExecutionContext, ExecuteSubtaskPlanOptions, plan_handler, SubtaskPlannerContext, PlannerOutcome,
  planned, threw, execute_subtask_plan, planner_context, execute_planned, decompose_and_execute,
  without_execution,
}

-- How the execution of a plan ends: a valid plan with a result, and another with the error of its
-- validation and the world as it was.
abbrev pub Ends :
    {W : Type 0} → SubtaskPlan → W → Option (Result SubtaskPlanExecutionResult × W) → Type 0
Ends {W} plan w r =
    ((e : SubtaskPlanExecutionResult) × (after : W) × (validate_subtask_plan plan ≡ some (ok tt))
      × (r ≡ some (ok e, after)))
    ⊎ ((e : OacpError) × (validate_subtask_plan plan ≡ some (err e)) × (r ≡ some (err e, w)))

module _ {W : Type 0} (context : ExecutionContext W) (options : ExecuteSubtaskPlanOptions) where
  execute_dag_plan-err :
      (plan : SubtaskPlan) (input : Fields) (w : W) (e : OacpError)
      → validate_subtask_plan plan ≡ some (err e)
      → execute_subtask_plan context plan input options w ≡ some (err e, w)
  unfolding execute_subtask_plan execute_dag_plan
  execute_dag_plan-err plan input w e h = rw (h, execute_dag_plan) refl

  plan_handler-Resolves :
      (input : Fields) → Sends context.runtime → Resolves (plan_handler context input options)
  unfolding plan_handler
  plan_handler-Resolves input sends s c w v =
      let (a, fine) : (a : Fields) × (resolve_step_input_for_handler s c input ≡ ok a) =
        unfold resolve_step_input_for_handler in input-ok s.map_input (or_else s.input input) _ v in
      rw (fine, plan_handler) (execute_step_task-ok _ s a _ w sends)

  execute_subtask_plan-Ends :
      (plan : SubtaskPlan) (input : Fields) (w : W)
      → Sends context.runtime
      → IsQuiet plan
      → Ends plan w (execute_subtask_plan context plan input options w)
  execute_subtask_plan-Ends plan input w sends quiet =
      let (r, valid) : (r : Result (Unit {0})) × (validate_subtask_plan plan ≡ some r) =
        validate_subtask_plan-total plan in
      go r valid
    where
      go :
          (r : Result (Unit {0}))
          → validate_subtask_plan plan ≡ some r
          → Ends plan w (execute_subtask_plan context plan input options w)
      go (err e) h = inr (e, h, execute_dag_plan-err plan input w e h)
      go (ok u) h =
          let (e, x, done) : (e : SubtaskPlanExecutionResult) × (x : Execution W)
              × (execute_dag_plan (plan_handler context input options) plan input context.trace_id
                    options.fail_fast w
                  ≡ some (ok e, x)) =
            execute_dag_plan-resolves (plan_handler context input options)
              (plan_handler-Resolves input sends) plan quiet input context.trace_id
              options.fail_fast w h in
          inl (e, x.world, h, unfold execute_subtask_plan in ap without_execution done)

  -- A task that is decomposed and executed comes to an end, where every sending of the runtime settles, none rejects and no function
  -- of a plan that the planner makes throws, whatever the agents answer. A planner that throws gives the error PLANNER_FAILED with its message, and nothing is executed; a plan that
  -- is valid is executed to a result; another gives the error of its validation, and nothing is executed.
  pub decompose_and_execute-Ends :
      (planner : SubtaskPlannerContext → W → PlannerOutcome × W) (w : W)
      → Sends context.runtime
      → ((c : SubtaskPlannerContext) (v : W) (plan : SubtaskPlan) (after : W)
          → planner c v ≡ (planned plan, after)
          → IsQuiet plan)
      → ((message : String) × (after : W) × (planner (planner_context context) w
            ≡ (threw message, after))
          × (decompose_and_execute context planner options w
              ≡ some (err (workflow_error planner_failed message []), after)))
        ⊎ ((plan : SubtaskPlan) × (after : W) × (planner (planner_context context) w
              ≡ (planned plan, after))
            × Ends plan after (decompose_and_execute context planner options w))
  unfolding decompose_and_execute execute_planned
  decompose_and_execute-Ends planner w sends quiet = go (planner (planner_context context) w) refl
    where
      go :
          (o : PlannerOutcome × W)
          → planner (planner_context context) w ≡ o
          → ((message : String) × (after : W) × (planner (planner_context context) w
                ≡ (threw message, after))
              × (decompose_and_execute context planner options w
                  ≡ some (err (workflow_error planner_failed message []), after)))
            ⊎ ((plan : SubtaskPlan) × (after : W) × (planner (planner_context context) w
                  ≡ (planned plan, after))
                × Ends plan after (decompose_and_execute context planner options w))
      go (threw message, after) h = inl (message, after, h, ap (execute_planned context options) h)
      go (planned plan, after) h = inr (
        plan,
        after,
        h,
        subst (Ends plan after) (sym (ap (execute_planned context options) h)) (
            execute_subtask_plan-Ends plan context.request_input after sends
              (quiet _ _ plan after h)),
      )
