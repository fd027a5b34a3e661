-- ===== src/Workflow/Definition.antt =====
-- core/src/workflow/workflow-definition-types.ts, workflow-definition.ts and run-workflow.ts: workflow
-- definitions, their validation and one run of a definition.
use oacp.Prelude.{ℕ, String, Bool, Option, none, some, List, [], ◌∷◌, or_else, if◌then◌else◌}
use oacp.Js.Text.{is_blank}
use oacp.Protocol.Json.{Fields}
use oacp.Protocol.Errors.{OacpError, workflow_error, Result, ok, err}
use oacp.Protocol.Errors.Codes.{plan_invalid}
use oacp.Protocol.Messages.{TaskErrorBody}
use oacp.Resilience.Policy.{TaskRecoveryPolicy}
use oacp.Resilience.Send.{RuntimeHandle}
use oacp.Workflow.Plan.{SubtaskPlan, SubtaskPlanStep, SubtaskPlanStepResult, SubtaskPlanContext}
use oacp.Workflow.Validation.{validate_subtask_plan}
use oacp.Workflow.Dag.{
  DagStepExecutionContext, DagStepHandler, SubtaskPlanExecutionResult, executed, aborted, Execution,
  execute_dag_plan,
}
use oacp.Workflow.Steps.{execute_step_task}

pub record WorkflowDefinition : Type 0 where
  pub id : String
  pub name : String
  pub version : Option String
  pub description : Option String
  pub steps : List SubtaskPlanStep
  pub metadata : Option Fields
  pub reduce_output : Option (SubtaskPlanContext → Result Fields)

pub data WorkflowRunResult : Type 0 where
  run_succeeded :
      (run_id trace_id workflow_id : String) (definition : WorkflowDefinition)
      (steps : List SubtaskPlanStepResult) (output : Option Fields)
      → WorkflowRunResult
  run_failed :
      (run_id trace_id workflow_id : String) (definition : WorkflowDefinition)
      (failed_step_id : String) (steps : List SubtaskPlanStepResult) (failure : TaskErrorBody)
      → WorkflowRunResult

pub record RunWorkflowOptions : Type 0 where
  pub run_id : Option String
  pub trace_id : Option String
  pub timeout_ms : Option ℕ
  pub fail_fast : Option Bool
  pub recovery : Option TaskRecoveryPolicy

unfoldable pub workflow_definition_to_plan : WorkflowDefinition → SubtaskPlan
workflow_definition_to_plan d = record {
  steps = d.steps;
  metadata = d.metadata;
  reduce_output = d.reduce_output;
}

missing_workflow_id : OacpError
missing_workflow_id =
    workflow_error plan_invalid "Workflow definition requires a non-empty id"
      (record { path = "/id"; message = "id is required" } ∷ [])

missing_workflow_name : OacpError
missing_workflow_name =
    workflow_error plan_invalid "Workflow definition requires a non-empty name"
      (record { path = "/name"; message = "name is required" } ∷ [])

unfoldable pub validate_workflow_definition : WorkflowDefinition → Option (Result (Unit {0}))
unfolding missing_workflow_id missing_workflow_name
validate_workflow_definition d =
    if is_blank d.id
    then some (err missing_workflow_id)
    else if is_blank d.name
    then some (err missing_workflow_name)
    else validate_subtask_plan (workflow_definition_to_plan d)

unfoldable pub resolve_step_input_for_handler :
    SubtaskPlanStep → DagStepExecutionContext → Fields → Result Fields
resolve_step_input_for_handler step context initial_input = elim step.map_input [
  | none ↦ ok (or_else step.input initial_input)
  | some f ↦ f (record {
    initial_input = context.initial_input;
    trace_id = context.trace_id;
    step_results = context.step_results;
  })
]

-- The coordinator that executes a run: its runtime and its identity.
pub record Executor (W : Type 0) : Type 0 where
  pub agent_id : String
  pub runtime : RuntimeHandle W

unfoldable pub run_result :
    WorkflowDefinition → String → Result SubtaskPlanExecutionResult → Result WorkflowRunResult
run_result d run_id (err e) = err e
run_result d run_id (ok (executed trace_id plan steps output)) =
    ok (run_succeeded run_id trace_id d.id d steps output)
run_result d run_id (ok (aborted trace_id plan failed_step_id steps failure)) =
    ok (run_failed run_id trace_id d.id d failed_step_id steps failure)

module _ {W : Type 0} (executor : Executor W) where
  unfoldable pub step_handler : Fields → String → RunWorkflowOptions → DagStepHandler W
  step_handler initial_input trace_id options step context w =
      elim (resolve_step_input_for_handler step context initial_input) [
        | err e ↦ (err e, w)
        | ok input ↦
            execute_step_task
              (record {
                agent_id = executor.agent_id;
                trace_id = trace_id;
                runtime = executor.runtime;
              })
              step input
              (record {
                timeout_ms = some (or_else options.timeout_ms 30000);
                parent_message_id = context.parent_message_id;
                recovery = options.recovery;
              })
              w
      ]

  -- The outcome of the execution, and the world after it.
  unfoldable pub run_outcome :
      WorkflowDefinition
      → String
      → W
      → Option (Result SubtaskPlanExecutionResult × Execution W)
      → Option (Result WorkflowRunResult × W)
  run_outcome d run_id w none = none
  run_outcome d run_id w (some (r, x)) = some (run_result d run_id r, x.world)

  -- `fresh_run` and `fresh_trace` are what `createTraceId` yields.
  unfoldable pub run_workflow :
      WorkflowDefinition
      → Fields
      → RunWorkflowOptions
      → String
      → String
      → W
      → Option (Result WorkflowRunResult × W)
  run_workflow d initial_input options fresh_run fresh_trace w =
      let trace_id : String = or_else options.trace_id fresh_trace in
      let run_id : String = or_else options.run_id fresh_run in
      let plan : SubtaskPlan = workflow_definition_to_plan d in
      elim (validate_workflow_definition d) [
        | none ↦ none
        | some (err e) ↦ some (err e, w)
        | some (ok u) ↦ run_outcome d run_id w (
            execute_dag_plan (step_handler initial_input trace_id options) plan initial_input
              trace_id options.fail_fast w)
      ]
