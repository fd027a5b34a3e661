-- ===== src/Workflow/Dag.antt =====
-- core/src/workflow/dag-executor.ts: `executeDagPlan`. Handlers act on a world. The handlers of one batch
-- run concurrently in the source; each sees the results of the batches before only, and here they act on
-- the world in the order of the batch, which is also the order in which their rejections arrive.
pub mod Outcomes
pub mod Ready
pub mod Quiet
pub mod Total
pub mod Resolves
use oacp.Prelude.{
  ℕ, String, Bool, true, false, Option, none, some, List, [], ◌∷◌, ◌++◌, or_else, last?, is_some,
  if◌then◌else◌,
}
use oacp.Js.Map
use oacp.Js.Map.{Map}
use oacp.Protocol.Json.{Fields, template}
use oacp.Protocol.Errors.{OacpError, workflow_error, Result, ok, err, map_result}
use oacp.Protocol.Errors.Codes.{plan_invalid, step_failed}
use oacp.Protocol.Messages.{TaskStatus, success, error, TaskErrorBody}
use oacp.Workflow.Plan.{SubtaskPlan, SubtaskPlanStep, SubtaskPlanStepResult, SubtaskPlanContext}
use oacp.Workflow.Batches.{deps_of}
use oacp.Workflow.Validation.{execution_batches, validate_subtask_plan}

pub record DagStepExecutionContext : Type 0 where
  pub initial_input : Fields
  pub trace_id : String
  pub step_results : Map SubtaskPlanStepResult
  pub parent_message_id : Option String

-- A handler resolves with a result, or rejects.
abbrev pub DagStepHandler : Type 0 → Type 0
DagStepHandler W = SubtaskPlanStep → DagStepExecutionContext → W → Result SubtaskPlanStepResult × W

pub data SubtaskPlanExecutionResult : Type 0 where
  executed :
      (trace_id : String) (plan : SubtaskPlan) (steps : List SubtaskPlanStepResult)
      (output : Option Fields)
      → SubtaskPlanExecutionResult
  aborted :
      (trace_id : String) (plan : SubtaskPlan) (failed_step_id : String)
      (steps : List SubtaskPlanStepResult) (failure : TaskErrorBody)
      → SubtaskPlanExecutionResult

-- The local variables of the loop, what `onStepComplete` was called with, and the world.
pub record Execution (W : Type 0) : Type 0 where
  pub step_results : Map SubtaskPlanStepResult
  pub step_message_ids : Map String
  pub workflow_root_message_id : Option String
  pub completed : List SubtaskPlanStepResult
  pub world : W

-- A batch ends the function, or the loop goes on.
pub data BatchFlow (W : Type 0) : Type 0 where
  stops : Result SubtaskPlanExecutionResult → Execution W → BatchFlow W
  goes_on : Execution W → BatchFlow W

-- `new Map(plan.steps.map((step) => [step.id, step]))`
unfoldable pub step_by_id : Map SubtaskPlanStep → List SubtaskPlanStep → Map SubtaskPlanStep
step_by_id m [] = m
step_by_id m (s ∷ steps) = step_by_id (Map.set m s.id s) steps

unfoldable pub first_message_id : Map String → List String → Option String → Option String
first_message_id ids [] root = root
first_message_id ids (dep ∷ deps) root = or_some (Map.get ids dep) (first_message_id ids deps root)
  where
    or_some : Option String → Option String → Option String
    or_some none rest = rest
    or_some (some id) rest = some id

unfoldable pub resolve_parent_message_id :
    SubtaskPlanStep → Map String → Option String → Option String
unfolding first_message_id
resolve_parent_message_id step ids root = first_message_id ids (deps_of step) root

unknown_step : String → OacpError
unknown_step id =
    workflow_error plan_invalid (template ("Unknown step id \"" ∷ id ∷ "\"" ∷ []))
      (record { path = template ("/steps/" ∷ id ∷ []); message = "step not found in plan" } ∷ [])

default_step_error : String → TaskErrorBody
default_step_error id = record {
  code = step_failed;
  message = template ("Step \"" ∷ id ∷ "\" failed" ∷ []);
  details = none;
}

default_reduce_output : List SubtaskPlanStepResult → Option Fields
default_reduce_output steps = elim (last? steps) [ none ↦ none | some r ↦ r.output ]

-- The first message id of a step becomes the root.
unfoldable pub note_message_id : {W : Type 0} → String → Option String → Execution W → Execution W
note_message_id id none x = x
note_message_id id (some m) x = record x {
  step_message_ids = Map.set x.step_message_ids id m;
  workflow_root_message_id = some (or_else x.workflow_root_message_id m);
}

unfoldable pub join : {A B : Type 0} → A → Result B → Result (List (A × B)) → Result (List (A × B))
join a (err e) rest = err e
join a (ok b) (err e) = err e
join a (ok b) (ok rest) = ok ((a, b) ∷ rest)

module _ {W : Type 0} (handler : DagStepHandler W) (plan : SubtaskPlan) (initial_input : Fields)
    (trace_id : String) where
  unfoldable pub context_for : Execution W → SubtaskPlanStep → DagStepExecutionContext
  unfolding resolve_parent_message_id
  context_for x step = record {
    initial_input = initial_input;
    trace_id = trace_id;
    step_results = x.step_results;
    parent_message_id =
        resolve_parent_message_id step x.step_message_ids x.workflow_root_message_id;
  }

  abbrev pub build_plan_context : Map SubtaskPlanStepResult → SubtaskPlanContext
  build_plan_context results = record {
    initial_input = initial_input;
    trace_id = trace_id;
    step_results = results;
  }

  unfoldable pub resolve_step_input : Execution W → SubtaskPlanStep → Result Fields
  resolve_step_input x step = elim step.map_input [
    | none ↦ ok (or_else step.input initial_input)
    | some f ↦ f (build_plan_context x.step_results)
  ]

  -- The input is resolved first, and the handler is not called where that throws.
  unfoldable pub call_step : Execution W → SubtaskPlanStep → W → Result SubtaskPlanStepResult × W
  call_step x step w = elim (resolve_step_input x step) [
    | err e ↦ (err e, w)
    | ok input ↦ handler step (context_for x step) w
  ]

  -- `Promise.all` over the steps of a batch: all of them are run, and the first rejection is the outcome.
  unfoldable pub call_batch :
      Execution W → List String → W → Result (List (SubtaskPlanStep × SubtaskPlanStepResult)) × W
  unfolding unknown_step
  call_batch x [] w = (ok [], w)
  call_batch x (id ∷ batch) w = elim (Map.get (step_by_id [] plan.steps) id) [
    | none ↦ (err (unknown_step id), (call_batch x batch w).1)
    | some step ↦
        let (result, after) = call_step x step w in
        let (rest, last) = call_batch x batch after in (join step result rest, last)
  ]

  unfoldable pub completes : SubtaskPlanStep → SubtaskPlanStepResult → Execution W → Execution W
  completes step result x = record x {
    step_results = Map.set x.step_results step.id result;
    completed = x.completed ++ result ∷ [];
  }

  -- The results of a batch are recorded in its order.
  unfoldable pub record_outcomes :
      Bool → List (SubtaskPlanStep × SubtaskPlanStepResult) → Execution W → BatchFlow W
  unfolding default_step_error
  record_outcomes fail_fast [] x = goes_on x
  record_outcomes fail_fast ((step, result) ∷ outcomes) x =
      let next : Execution W = completes step result x in
      let skipped : BatchFlow W = record_outcomes fail_fast outcomes next in
      let noted : BatchFlow W =
        record_outcomes fail_fast outcomes
          (note_message_id step.id result.request_message_id next) in
      elim result.status [
        | success ↦ noted
        | error ↦
            if fail_fast
            then stops
                (ok (
                  aborted trace_id plan step.id (Map.values next.step_results)
                    (or_else result.error (default_step_error step.id))))
                next
            else skipped
      ]

  unfoldable pub run_batch : Bool → List String → Execution W → BatchFlow W
  run_batch fail_fast batch x =
      let (outcomes, after) = call_batch x batch x.world in
      elim outcomes [
        | err e ↦ stops (err e) (record x { world = after })
        | ok os ↦ record_outcomes fail_fast os (record x { world = after })
      ]

  unfoldable pub run_batches : Bool → List (List String) → Execution W → BatchFlow W
  run_batches fail_fast [] x = goes_on x
  run_batches fail_fast (batch ∷ batches) x = elim (run_batch fail_fast batch x) [
    | stops r y ↦ stops r y
    | goes_on y ↦ run_batches fail_fast batches y
  ]

  unfoldable pub reduced : Map SubtaskPlanStepResult → Result (Option Fields)
  unfolding default_reduce_output
  reduced results = elim plan.reduce_output [
    | none ↦ ok (default_reduce_output (Map.values results))
    | some f ↦ map_result (λ (output : Fields). some output) (f (build_plan_context results))
  ]

  unfoldable pub finish : BatchFlow W → Result SubtaskPlanExecutionResult × Execution W
  unfolding reduced
  finish (stops r x) = (r, x)
  finish (goes_on x) =
      (map_result (executed trace_id plan (Map.values x.step_results)) (reduced x.step_results), x)

  abbrev pub no_execution : W → Execution W
  no_execution w = record {
    step_results = [];
    step_message_ids = [];
    workflow_root_message_id = none;
    completed = [];
    world = w;
  }

  unfoldable pub execute_batches :
      Bool
      → Option (Result (List (List String)))
      → W
      → Option (Result SubtaskPlanExecutionResult × Execution W)
  execute_batches fail_fast none w = none
  execute_batches fail_fast (some (err e)) w = some (err e, no_execution w)
  execute_batches fail_fast (some (ok bs)) w =
      some (finish (run_batches fail_fast bs (no_execution w)))

  -- `failFast` is on unless it is switched off.
  unfoldable pub execute_dag_plan :
      Option Bool → W → Option (Result SubtaskPlanExecutionResult × Execution W)
  execute_dag_plan fail_fast w = elim (validate_subtask_plan plan) [
    | none ↦ none
    | some (err e) ↦ some (err e, no_execution w)
    | some (ok u) ↦ execute_batches (or_else fail_fast true) (execution_batches plan.steps) w
  ]
