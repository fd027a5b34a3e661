-- ===== src/Tests/Workflow.antt =====
-- The theorems on plans at a plan of two steps.
use oacp.Prelude.{
  ℕ, String, ◌≡◌, refl, true, none, some, List, [], ◌∷◌, all, ◌==◌, if◌then◌else◌, arith,
}
use oacp.Js.Set
use oacp.Protocol.Errors.{Result, ok}
use oacp.Protocol.Messages.{success}
use oacp.Workflow.Plan.{SubtaskPlan, SubtaskPlanStep}
use oacp.Workflow.Batches.{ids, flatten, plan_execution_batches}
use oacp.Workflow.Batches.Counts.{nodup}
use oacp.Workflow.Batches.Spec.{deps_in, IsSchedule}
use oacp.Workflow.Batches.Schedule.{plan_execution_batches-IsSchedule}
use oacp.Workflow.Validation.{validate_subtask_plan}
use oacp.Workflow.Validation.Accepts.{
  IsExecutable, validate_subtask_plan-total, validate_subtask_plan-IsExecutable,
  validate_subtask_plan-acyclic,
}
use oacp.Workflow.Dag.{
  DagStepExecutionContext, DagStepHandler, SubtaskPlanExecutionResult, Execution, execute_dag_plan,
}
use oacp.Workflow.Dag.Ready.{recording, is_ready, execute_dag_plan-ready}
use oacp.Workflow.Dag.Quiet.{IsQuiet}
use oacp.Tests.Data.{input}

abbrev pub step_of : String → List String → SubtaskPlanStep
step_of id deps = record {
  id = id;
  capability = "sum";
  to = none;
  depends_on = some deps;
  input = some input;
  map_input = none;
  reason = none;
  fallback_capabilities = none;
  recovery = none;
}

abbrev pub plan : SubtaskPlan
plan = record {
  steps = step_of "sum" ("read" ∷ []) ∷ step_of "read" [] ∷ [];
  metadata = none;
  reduce_output = none;
}

abbrev batches : List (List String)
batches = ("read" ∷ []) ∷ ("sum" ∷ []) ∷ []

abbrev pub rank : String → ℕ
rank id = if id == "read" then 0 else 1

abbrev pub handler : DagStepHandler ℕ
handler step context w = (
  ok (record {
    step_id = step.id;
    capability = step.capability;
    from = "agent://a";
    status = success;
    output = some input;
    error = none;
    request_message_id = some step.id;
    recovery_attempts = none;
  }),
  w,
)

pub plan-IsQuiet : IsQuiet plan
plan-IsQuiet = record { steps = (tt, (tt, tt)); output = tt }

validate_subtask_plan-total_example :
    (r : Result (Unit {0})) × (validate_subtask_plan plan ≡ some r)
validate_subtask_plan-total_example = validate_subtask_plan-total plan

validate_subtask_plan-acyclic_example : validate_subtask_plan plan ≡ some (ok tt)
unfolding deps_in Set.has oacp.Js.Text.is_blank
validate_subtask_plan-acyclic_example =
    validate_subtask_plan-acyclic plan rank (λ e. cc) refl refl refl

validate_subtask_plan-IsExecutable_example : IsExecutable plan.steps
unfolding deps_in Set.has oacp.Js.Text.is_blank
validate_subtask_plan-IsExecutable_example =
    validate_subtask_plan-IsExecutable plan
      (validate_subtask_plan-acyclic plan rank (λ e. cc) refl refl refl)

plan_execution_batches-IsSchedule_example :
    IsSchedule (deps_in plan.steps) [] batches
    × (nodup (flatten batches) ≡ true)
    × ((i : String) → Set.has (flatten batches) i ≡ Set.has (ids plan.steps) i)
unfolding Set.has plan_execution_batches flatten oacp.Js.Map.get oacp.Js.Map.set
    oacp.Workflow.Batches.build_graph oacp.Workflow.Batches.add_steps oacp.Workflow.Batches.add_deps
    oacp.Workflow.Batches.batches_of oacp.Workflow.Batches.levels
    oacp.Workflow.Batches.initial_queue oacp.Workflow.Batches.degree oacp.Workflow.Batches.add_edge
    oacp.Workflow.Batches.zero_degrees oacp.Workflow.Batches.increment
    oacp.Workflow.Batches.visit_queue oacp.Workflow.Batches.release_children
    oacp.Workflow.Batches.children_of oacp.Workflow.Batches.release_child
    oacp.Workflow.Batches.decrement oacp.Workflow.Batches.check_visited
plan_execution_batches-IsSchedule_example =
    plan_execution_batches-IsSchedule plan.steps 2 batches refl (omega arith) refl

execute_dag_plan-ready_example :
    (r : Result SubtaskPlanExecutionResult) × (x : Execution
      (ℕ × List (SubtaskPlanStep × DagStepExecutionContext)))
    × (execute_dag_plan (recording handler) plan input "trace-1" none (0, []) ≡ some (r, x))
    × (all is_ready x.world.1 ≡ true)
execute_dag_plan-ready_example = execute_dag_plan-ready handler plan input "trace-1" none 0
