-- ===== src/Tests/Decompose.antt =====
-- The theorem on decomposition at a concrete input.
use oacp.Prelude.{ℕ, String, ◌≡◌, refl, none, some, [], ◌⊎◌, subst}
use oacp.Protocol.Errors.{workflow_error, err}
use oacp.Protocol.Errors.Codes.{planner_failed}
use oacp.Workflow.Plan.{SubtaskPlan}
use oacp.Workflow.Decompose.{
  ExecutionContext, ExecuteSubtaskPlanOptions, SubtaskPlannerContext, PlannerOutcome, planned,
  threw, planner_context, decompose_and_execute,
}
use oacp.Workflow.Decompose.Outcomes.{Ends, decompose_and_execute-Ends}
use oacp.Workflow.Dag.Quiet.{IsQuiet}
use oacp.Tests.Data.{input}
use oacp.Tests.Resilience.{runtime}
use oacp.Tests.Workflow.{plan-IsQuiet, plan}

abbrev context : ExecutionContext ℕ
context = record {
  runtime = runtime;
  agent_id = "agent://c";
  trace_id = "trace-1";
  message_id = "m1";
  received_at = "2026-01-01T00:00:00Z";
  request_capability = "sum";
  request_input = input;
}

abbrev options : ExecuteSubtaskPlanOptions
options = record { timeout_ms = none; fail_fast = none; recovery = none }

abbrev planner : SubtaskPlannerContext → ℕ → PlannerOutcome × ℕ
planner c w = (planned plan, w)

decompose_and_execute-Ends_example :
    ((message : String) × (after : ℕ) × (planner (planner_context context) 0
        ≡ (threw message, after))
      × (decompose_and_execute context planner options 0
          ≡ some (err (workflow_error planner_failed message []), after)))
    ⊎ ((p : SubtaskPlan) × (after : ℕ) × (planner (planner_context context) 0 ≡ (planned p, after))
        × Ends p after (decompose_and_execute context planner options 0))
decompose_and_execute-Ends_example =
    decompose_and_execute-Ends context options planner 0 (λ p w. (_, refl))
      (λ c v p after h. subst IsQuiet (cc h) plan-IsQuiet)
