-- ===== src/Workflow/Dag/Resolves.antt =====
-- Where nothing throws or rejects, the execution of a valid plan resolves.
use oacp.Prelude.{
  String, ◌≡◌, refl, sym, ap, ◌∙◌, Bool, true, ◌||◌, Option, none, some, List, [], ◌∷◌, ◌++◌, arith,
  all, or_else, Option-cases, inl, inr, is_some, if_ind,
}
use oacp.Js.Map
use oacp.Js.Map.{Map, get-set}
use oacp.Js.Set
use oacp.Js.Set.{all-of_has}
use oacp.Protocol.Json.{Fields}
use oacp.Protocol.Errors.{Result, ok, map_result}
use oacp.Workflow.Plan.{SubtaskPlan, SubtaskPlanStep, SubtaskPlanStepResult, SubtaskPlanContext}
use oacp.Workflow.Batches.{ids, flatten}
use oacp.Workflow.Validation.{validate_subtask_plan}
use oacp.Workflow.Validation.Accepts.{validate_subtask_plan-IsExecutable}
use oacp.Workflow.Dag.{
  DagStepExecutionContext, DagStepHandler, SubtaskPlanExecutionResult, executed, Execution,
  BatchFlow, stops, goes_on, step_by_id, join, context_for, build_plan_context, resolve_step_input,
  call_step, reduced, default_reduce_output, call_batch, record_outcomes, run_batch, run_batches,
  finish, no_execution, execute_batches, execute_dag_plan,
}
use oacp.Workflow.Dag.Quiet.{Returns, IsQuiet, step-Returns, input-ok}
use oacp.Workflow.Dag.Outcomes.{status-cases}

step_by_id-some :
    (m : Map SubtaskPlanStep) (steps : List SubtaskPlanStep) (i : String)
    → is_some (Map.get (step_by_id m steps) i) ≡ (Set.has (ids steps) i || is_some (Map.get m i))
unfolding step_by_id Set.has
step_by_id-some m [] i = refl
step_by_id-some m (s ∷ steps) i =
    ground (arith, step_by_id-some (Map.set m s.id s) steps i, get-set m s.id i s)

all_prefix :
    (p : String → Bool) (xs ys : List String)
    → all p (xs ++ ys) ≡ true
    → (all p xs ≡ true) × (all p ys ≡ true)
all_prefix p [] ys h = (refl, h)
all_prefix p (x ∷ xs) ys h =
    let (left, right) = all_prefix p xs ys (ground (arith, h)) in (ground (arith, h, left), right)

-- A flow that no rejection has stopped.
abbrev IsResolved : {W : Type 0} → BatchFlow W → Type 0
IsResolved (stops r x) = (e : SubtaskPlanExecutionResult) × (r ≡ ok e)
IsResolved (goes_on x) = Unit {0}

-- The handler does not reject at a step whose `mapInput` does not throw.
abbrev pub Resolves : {W : Type 0} → DagStepHandler W → Type 0
Resolves {W} handler =
    (s : SubtaskPlanStep) (context : DagStepExecutionContext) (w : W)
    → Returns s.map_input
    → (r : SubtaskPlanStepResult) × ((handler s context w).0 ≡ ok r)

module _ {W : Type 0} (handler : DagStepHandler W) (resolves : Resolves handler)
    (plan : SubtaskPlan) (quiet : IsQuiet plan) (input : Fields) (trace_id : String) where
  call_step-ok :
      (x : Execution W) (s : SubtaskPlanStep) (w : W)
      → Returns s.map_input
      → (r : SubtaskPlanStepResult) × ((call_step handler plan input trace_id x s w).0 ≡ ok r)
  unfolding call_step
  call_step-ok x s w v =
      let (a, fine) : (a : Fields) × (resolve_step_input handler plan input trace_id x s ≡ ok a) =
        unfold resolve_step_input in
        input-ok s.map_input (or_else s.input input)
          (build_plan_context handler plan input trace_id x.step_results) v in
      rw (fine, call_step) (resolves s (context_for handler plan input trace_id x s) w v)

  call_batch-ok :
      (x : Execution W) (batch : List String) (w : W)
      → all (Set.has (ids plan.steps)) batch ≡ true
      → (os : List (SubtaskPlanStep × SubtaskPlanStepResult)) × ((call_batch handler plan input
            trace_id x batch w).0
          ≡ ok os)
  unfolding call_batch join
  call_batch-ok x [] w h = ([], refl)
  call_batch-ok x (id ∷ batch) w h = elim (Option-cases (Map.get (step_by_id [] plan.steps) id)) [
    | inl absent ↦ absurd (ground (arith, h, absent, step_by_id-some [] plan.steps id))
    | inr (s, e) ↦
        let (r, resolved) = call_step-ok x s w (step-Returns plan.steps id s quiet.steps e) in
        let (os, rest) =
          call_batch-ok x batch (call_step handler plan input trace_id x s w).1
            (ground (arith, h)) in
        ((s, r) ∷ os, rw (e, call_batch) (rw (resolved, rest, join)))
  ]

  record_outcomes-IsResolved :
      (fail_fast : Bool) (os : List (SubtaskPlanStep × SubtaskPlanStepResult)) (x : Execution W)
      → IsResolved (record_outcomes handler plan input trace_id fail_fast os x)
  unfolding record_outcomes
  record_outcomes-IsResolved fail_fast [] x = tt
  record_outcomes-IsResolved fail_fast ((s, r) ∷ os) x = elim (status-cases r.status) [
    | inl fine ↦ rw (fine, record_outcomes) (record_outcomes-IsResolved fail_fast os _)
    | inr failed ↦
        rw (failed, record_outcomes)
          (if_ind (IsResolved {W = W}) fail_fast (λ _. (_, refl))
            (λ _. record_outcomes-IsResolved fail_fast os _))
  ]

  run_batch-IsResolved :
      (fail_fast : Bool) (batch : List String) (x : Execution W)
      → all (Set.has (ids plan.steps)) batch ≡ true
      → IsResolved (run_batch handler plan input trace_id fail_fast batch x)
  unfolding run_batch
  run_batch-IsResolved fail_fast batch x h =
      let (os, fine) = call_batch-ok x batch x.world h in
      rw (fine, run_batch) (record_outcomes-IsResolved fail_fast os _)

  then-IsResolved :
      (f : BatchFlow W) (rest : Execution W → BatchFlow W)
      → IsResolved f
      → ((y : Execution W) → IsResolved (rest y))
      → IsResolved {W = W} (elim f [ stops r y ↦ stops r y | goes_on y ↦ rest y ])
  then-IsResolved (stops r y) rest v k = v
  then-IsResolved (goes_on y) rest v k = k y

  run_batches-IsResolved :
      (fail_fast : Bool) (batches : List (List String)) (x : Execution W)
      → all (Set.has (ids plan.steps)) (flatten batches) ≡ true
      → IsResolved (run_batches handler plan input trace_id fail_fast batches x)
  unfolding run_batches flatten
  run_batches-IsResolved fail_fast [] x h = tt
  run_batches-IsResolved fail_fast (batch ∷ batches) x h =
      let (here, there) = all_prefix (Set.has (ids plan.steps)) batch (flatten batches) h in
      then-IsResolved (run_batch handler plan input trace_id fail_fast batch x) _
        (run_batch-IsResolved fail_fast batch x here)
        (λ y. run_batches-IsResolved fail_fast batches y there)

  reduced-ok :
      (results : Map SubtaskPlanStepResult)
      → (a : Option Fields) × (reduced handler plan input trace_id results ≡ ok a)
  unfolding reduced
  reduced-ok results = go plan.reduce_output quiet.output
    where
      go :
          (f : Option (SubtaskPlanContext → Result Fields))
          → Returns f
          → (a : Option Fields) × ((elim f [
            | none ↦ ok (default_reduce_output (Map.values results))
            | some g ↦
                map_result
                  (λ (output : Fields). some output)
                  (g (build_plan_context handler plan input trace_id results))
          ])
              ≡ ok a)
      go none v = (_, refl)
      go (some f) v =
          let (a, fine) = v (build_plan_context handler plan input trace_id results) in
          (some a, ap (map_result (λ (output : Fields). some output)) fine)

  finish-ok :
      (f : BatchFlow W)
      → IsResolved f
      → (e : SubtaskPlanExecutionResult) × ((finish handler plan input trace_id f).0 ≡ ok e)
  unfolding finish
  finish-ok (stops r x) v = v
  finish-ok (goes_on x) v =
      let (a, fine) = reduced-ok x.step_results in
      (
        executed trace_id plan (Map.values x.step_results) a,
        ap (map_result (executed trace_id plan (Map.values x.step_results))) fine,
      )

  -- A valid plan whose own functions do not throw, with a handler that does not reject at a step whose `mapInput`
  -- does not throw, is executed to a result: no step is unknown, and no rejection is made up on the way.
  pub execute_dag_plan-resolves :
      (fail_fast : Option Bool) (w : W)
      → validate_subtask_plan plan ≡ some (ok tt)
      → (e : SubtaskPlanExecutionResult) × (x : Execution W) × (execute_dag_plan handler plan input
            trace_id fail_fast w
          ≡ some (ok e, x))
  unfolding execute_dag_plan execute_batches
  execute_dag_plan-resolves fail_fast w h =
      let valid = validate_subtask_plan-IsExecutable plan h in
      let flow : BatchFlow W =
        run_batches handler plan input trace_id (or_else fail_fast true) valid.batches
          (no_execution handler plan input trace_id w) in
      let (e, fine) = finish-ok flow (
        run_batches-IsResolved (or_else fail_fast true) valid.batches _ (
          all-of_has (Set.has (ids plan.steps)) (flatten valid.batches)
            (λ a m. sym (valid.all_of_them a) ∙ m))) in
      (
        e,
        (finish handler plan input trace_id flow).1,
        rw (h, execute_dag_plan) (rw (valid.batched, execute_batches) (rw (← fine) refl)),
      )
