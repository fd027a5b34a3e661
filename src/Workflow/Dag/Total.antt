-- ===== src/Workflow/Dag/Total.antt =====
-- The execution of a plan settles, by a result or a rejection.
use oacp.Prelude.{String, ◌≡◌, refl, Bool, true, Option, some, or_else}
use oacp.Protocol.Json.{Fields}
use oacp.Protocol.Errors.{Result, ok, err}
use oacp.Workflow.Plan.{SubtaskPlan}
use oacp.Workflow.Validation.{validate_subtask_plan}
use oacp.Workflow.Validation.Accepts.{
  validate_subtask_plan-IsExecutable, validate_subtask_plan-total,
}
use oacp.Workflow.Dag.{
  DagStepHandler, SubtaskPlanExecutionResult, Execution, run_batches, finish, no_execution,
  execute_batches, execute_dag_plan,
}

pub execute_dag_plan-total :
    {W : Type 0} (handler : DagStepHandler W) (plan : SubtaskPlan) (input : Fields)
    (trace_id : String) (fail_fast : Option Bool) (w : W)
    → (r : Result SubtaskPlanExecutionResult) × (x : Execution W) × (execute_dag_plan handler plan
          input trace_id fail_fast w
        ≡ some (r, x))
unfolding execute_dag_plan execute_batches
execute_dag_plan-total {W} handler plan input trace_id fail_fast w =
    let (valid, ends) = validate_subtask_plan-total plan in go valid ends
  where
    go :
        (valid : Result (Unit {0}))
        → validate_subtask_plan plan ≡ some valid
        → (r : Result SubtaskPlanExecutionResult) × (x : Execution W) × (execute_dag_plan handler
              plan input trace_id fail_fast w
            ≡ some (r, x))
    go (err e) ends =
        (err e, no_execution handler plan input trace_id w, rw (ends, execute_dag_plan) refl)
    go (ok u) ends =
        let valid = validate_subtask_plan-IsExecutable plan ends in
        let end = finish handler plan input trace_id (
          run_batches handler plan input trace_id (or_else fail_fast true) valid.batches
            (no_execution handler plan input trace_id w)) in
        (end.0, end.1, rw (ends, execute_dag_plan) (rw (valid.batched, execute_batches) refl))
