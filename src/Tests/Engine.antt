-- ===== src/Tests/Engine.antt =====
-- The theorems on steps, executions and runs at concrete inputs.
use oacp.Prelude.{ℕ, ◌≡◌, refl, none, some, [], ◌∷◌}
use oacp.Js.Set
use oacp.Protocol.Errors.{ok}
use oacp.Resilience.Policy.{normalize}
use oacp.Workflow.Batches.Spec.{deps_in}
use oacp.Workflow.Validation.Accepts.{validate_subtask_plan-acyclic}
use oacp.Workflow.Dag.{SubtaskPlanExecutionResult, Execution, execute_dag_plan}
use oacp.Workflow.Steps.Sends.{Sends}
use oacp.Workflow.Dag.Resolves.{execute_dag_plan-resolves}
use oacp.Workflow.Steps.{StepTaskContext, StepTaskExecutionOptions, execute_step_task}
use oacp.Workflow.Steps.Trail.{Trailed, execute_step_task-HasTrail}
use oacp.Workflow.Definition.{WorkflowDefinition, Executor}
use oacp.Workflow.Engine.{WorkflowEngine, RunCall}
use oacp.Tests.Data.{input}
use oacp.Tests.Resilience.{runtime, twice}
use oacp.Tests.Workflow.{plan-IsQuiet, plan, rank, handler, step_of}

abbrev context : StepTaskContext ℕ
context = record { agent_id = "agent://c"; trace_id = "trace-1"; runtime = runtime }

abbrev with_recovery : StepTaskExecutionOptions
with_recovery = record { timeout_ms = none; parent_message_id = none; recovery = some twice }

execute_step_task-HasTrail_example :
    Trailed runtime
      (normalize (some twice)).max_total_attempts
      (execute_step_task context (step_of "sum" []) input with_recovery 0).0
unfolding oacp.Resilience.Policy.merge_recovery_policies
execute_step_task-HasTrail_example =
    execute_step_task-HasTrail context (step_of "sum" []) input with_recovery twice 0 refl

execute_dag_plan-resolves_example :
    (e : SubtaskPlanExecutionResult) × (x : Execution ℕ) × (execute_dag_plan handler plan input
        "trace-1" none 0
      ≡ some (ok e, x))
unfolding deps_in Set.has oacp.Js.Text.is_blank
execute_dag_plan-resolves_example =
    execute_dag_plan-resolves handler (λ s c w v. (_, refl)) plan plan-IsQuiet input "trace-1" none
      0 (validate_subtask_plan-acyclic plan rank (λ e. cc) refl refl refl)

abbrev definition : WorkflowDefinition
definition = record {
  id = "add";
  name = "Add";
  version = none;
  description = none;
  steps = plan.steps;
  metadata = none;
  reduce_output = none;
}

abbrev engine : WorkflowEngine
engine = record { definitions = ("add", definition) ∷ []; runs = []; default_timeout_ms = 30000 }

abbrev call : RunCall
call = record {
  workflow_id = "add";
  input = input;
  options = record {
    run_id = none;
    trace_id = none;
    timeout_ms = none;
    fail_fast = none;
    recovery = none;
  };
  fresh_run = "run-1";
  fresh_trace = "trace-1";
  started_at = "2026-01-01T00:00:00Z";
  completed_at = "2026-01-01T00:00:01Z";
}

abbrev executor : Executor ℕ
executor = record { agent_id = "agent://c"; runtime = runtime }
