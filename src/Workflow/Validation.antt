-- ===== src/Workflow/Validation.antt =====
-- `validateSubtaskPlan` of core/src/workflow/plan-validation.ts.
pub mod Valid
pub mod Accepts
use oacp.Prelude.{
  ℕ, String, Bool, true, false, not, ◌||◌, Option, none, some, List, [], ◌∷◌, ◌++◌, any, ◌==◌,
  is_some, length, if◌then◌else◌,
}
use oacp.Js.Set
use oacp.Js.Text.{is_blank}
use oacp.Protocol.Json.{template}
use oacp.Protocol.Errors.{OacpError, workflow_error, Result, ok, err, check_then}
use oacp.Protocol.Errors.Codes.{plan_invalid}
use oacp.Workflow.Plan.{SubtaskPlanStep, SubtaskPlan}
use oacp.Workflow.Batches.{deps_of, unknown_dependency, plan_execution_batches}

empty_plan : OacpError
empty_plan =
    workflow_error plan_invalid "Subtask plan must contain at least one step"
      (record { path = "/steps"; message = "steps array is empty" } ∷ [])

missing_id : OacpError
missing_id =
    workflow_error plan_invalid "Each step requires a non-empty id"
      (record { path = "/steps/id"; message = "step id is required" } ∷ [])

duplicate_id : String → OacpError
duplicate_id id =
    workflow_error plan_invalid (template ("Duplicate step id \"" ∷ id ∷ "\"" ∷ []))
      (record { path = template ("/steps/" ∷ id ∷ []); message = "step id must be unique" } ∷ [])

missing_capability : String → OacpError
missing_capability id =
    workflow_error plan_invalid (template ("Step \"" ∷ id ∷ "\" requires a capability" ∷ [])) (
      record {
        path = template ("/steps/" ∷ id ∷ "/capability" ∷ []);
        message = "capability is required";
      }
      ∷ [])

missing_input : String → OacpError
missing_input id =
    workflow_error plan_invalid (template ("Step \"" ∷ id ∷ "\" requires input or mapInput" ∷ [])) (
      record {
        path = template ("/steps/" ∷ id ∷ "/input" ∷ []);
        message = "provide input or mapInput";
      }
      ∷ [])

-- `ids.has(dep) || plan.steps.some((candidate) => candidate.id === dep)`
unfoldable pub is_step : List SubtaskPlanStep → List String → String → Bool
is_step steps seen dep = Set.has seen dep || any (λ s. s.id == dep) steps

unfoldable pub check_deps :
    List SubtaskPlanStep → List String → String → List String → Result (Unit {0})
unfolding is_step
check_deps steps seen id [] = ok tt
check_deps steps seen id (dep ∷ deps) =
    check_then (is_step steps seen dep) (unknown_dependency id dep) (check_deps steps seen id deps)

-- The body of the loop, and the rest of the loop where the body throws nothing. `seen` are the ids before.
unfoldable pub check_steps :
    List SubtaskPlanStep → Set.Set → List SubtaskPlanStep → Result (Unit {0})
unfolding missing_id duplicate_id missing_capability missing_input check_deps
check_steps all_steps seen [] = ok tt
check_steps all_steps seen (s ∷ steps) =
    let rest = check_steps all_steps (Set.add seen s.id) steps in
    check_then (not (is_blank s.id)) missing_id (
      check_then (not (Set.has seen s.id)) (duplicate_id s.id) (
        check_then (not (is_blank s.capability)) (missing_capability s.id) (
          check_then (is_some s.map_input || is_some s.input) (missing_input s.id)
            (elim (check_deps all_steps (Set.add seen s.id) s.id (deps_of s)) [
              | err e ↦ err e
              | ok u ↦ rest
            ]))))

-- `planExecutionBatches`, with the fuel that is enough for distinct ids.
unfoldable pub execution_batches : List SubtaskPlanStep → Option (Result (List (List String)))
execution_batches steps = plan_execution_batches (length steps) steps

-- The batches are dropped; only an error is of interest.
unfoldable pub discard : Option (Result (List (List String))) → Option (Result (Unit {0}))
discard none = none
discard (some (ok bs)) = some (ok tt)
discard (some (err e)) = some (err e)

unfoldable pub assert_acyclic : List SubtaskPlanStep → Option (Result (Unit {0}))
unfolding discard execution_batches
assert_acyclic steps = discard (execution_batches steps)

unfoldable pub validate_steps : List SubtaskPlanStep → Option (Result (Unit {0}))
unfolding empty_plan
validate_steps [] = some (err empty_plan)
validate_steps (s ∷ steps) = elim (check_steps (s ∷ steps) [] (s ∷ steps)) [
  | err e ↦ some (err e)
  | ok u ↦ assert_acyclic (s ∷ steps)
]

unfoldable pub validate_subtask_plan : SubtaskPlan → Option (Result (Unit {0}))
validate_subtask_plan plan = validate_steps plan.steps
