-- ===== src/Workflow/Decompose.antt =====
-- core/src/workflow/execute-subtask-plan.ts and subtask-planner.ts: a plan that is executed, or made and
-- executed, for the task that an agent handles (core/src/runtime/execution-context.ts).
pub mod Outcomes
use oacp.Prelude.{ℕ, String, Bool, Option, none, some, List, [], or_else}
use oacp.Protocol.Json.{Fields}
use oacp.Protocol.Errors.{OacpError, workflow_error, Result, ok, err}
use oacp.Protocol.Errors.Codes.{planner_failed}
use oacp.Resilience.Policy.{TaskRecoveryPolicy}
use oacp.Resilience.Send.{RuntimeHandle, SendTaskParams, SendTaskOutcome}
use oacp.Workflow.Plan.{SubtaskPlan}
use oacp.Workflow.Dag.{DagStepHandler, SubtaskPlanExecutionResult, Execution, execute_dag_plan}
use oacp.Workflow.Steps.{execute_step_task}
use oacp.Workflow.Definition.{resolve_step_input_for_handler}
use oacp.Runtime.Agent.Tasks.{DelegateParams}

-- The task that is handled, and the runtime that handles it. `capability` is one of a request or a delegation.
pub record ExecutionContext (W : Type 0) : Type 0 where
  pub runtime : RuntimeHandle W
  pub agent_id : String
  pub trace_id : String
  pub message_id : String
  pub received_at : String
  pub request_capability : String
  pub request_input : Fields

pub record ContextDelegateParams : Type 0 where
  pub capability : String
  pub input : Fields
  pub to : Option String
  pub reason : Option String

-- The trace and the parent of what a task causes are those of the task.
unfoldable pub context_delegate :
    {W : Type 0} → ExecutionContext W → ContextDelegateParams → DelegateParams
context_delegate c p = record {
  capability = p.capability;
  input = p.input;
  parent_message_id = c.message_id;
  trace_id = c.trace_id;
  to = p.to;
  reason = p.reason;
}

unfoldable pub context_send_sub_task :
    {W : Type 0} → ExecutionContext W → SendTaskParams → W → Result SendTaskOutcome × W
context_send_sub_task c p w =
    c.runtime.send_sub_task
      (record p { trace_id = some c.trace_id; parent_message_id = some c.message_id }) w

pub record ExecuteSubtaskPlanOptions : Type 0 where
  pub timeout_ms : Option ℕ
  pub fail_fast : Option Bool
  pub recovery : Option TaskRecoveryPolicy

pub record SubtaskPlannerContext : Type 0 where
  pub input : Fields
  pub trace_id : String
  pub agent_id : String
  pub message_id : String
  pub capability : Option String

-- What a planner gives: a plan, or the message of what it throws.
pub data PlannerOutcome : Type 0 where
  planned : SubtaskPlan → PlannerOutcome
  threw : String → PlannerOutcome

-- The outcome of an execution, and the world after it.
abbrev pub without_execution :
    {W : Type 0}
    → Option (Result SubtaskPlanExecutionResult × Execution W)
    → Option (Result SubtaskPlanExecutionResult × W)
without_execution none = none
without_execution (some (r, x)) = some (r, x.world)

module _ {W : Type 0} (context : ExecutionContext W) where
  unfoldable pub plan_handler : Fields → ExecuteSubtaskPlanOptions → DagStepHandler W
  plan_handler initial_input options step dag_context w =
      elim (resolve_step_input_for_handler step dag_context initial_input) [
        | err e ↦ (err e, w)
        | ok input ↦
            execute_step_task
              (record {
                agent_id = context.agent_id;
                trace_id = context.trace_id;
                runtime = context.runtime;
              })
              step input
              (record {
                timeout_ms = some (or_else options.timeout_ms 30000);
                parent_message_id = dag_context.parent_message_id;
                recovery = options.recovery;
              })
              w
      ]

  -- `executeSubtaskPlan`
  unfoldable pub execute_subtask_plan :
      SubtaskPlan
      → Fields
      → ExecuteSubtaskPlanOptions
      → W
      → Option (Result SubtaskPlanExecutionResult × W)
  execute_subtask_plan plan initial_input options w = without_execution (
      execute_dag_plan (plan_handler initial_input options) plan initial_input context.trace_id
        options.fail_fast w)

  abbrev pub planner_context : SubtaskPlannerContext
  planner_context = record {
    input = context.request_input;
    trace_id = context.trace_id;
    agent_id = context.agent_id;
    message_id = context.message_id;
    capability = some context.request_capability;
  }

  unfoldable pub execute_planned :
      ExecuteSubtaskPlanOptions
      → PlannerOutcome × W
      → Option (Result SubtaskPlanExecutionResult × W)
  execute_planned options (threw message, w) =
      some (err (workflow_error planner_failed message []), w)
  execute_planned options (planned plan, w) =
      execute_subtask_plan plan context.request_input options w

  -- `decomposeAndExecute`, with a planner that acts on the world.
  unfoldable pub decompose_and_execute :
      (SubtaskPlannerContext → W → PlannerOutcome × W)
      → ExecuteSubtaskPlanOptions
      → W
      → Option (Result SubtaskPlanExecutionResult × W)
  decompose_and_execute planner options w = execute_planned options (planner planner_context w)
