-- ===== src/Workflow/Validation/Accepts.antt =====
-- An accepted plan meets every check and can be executed in batches; a plan that meets them, with ranked steps, is accepted.
use oacp.Prelude.{
  ℕ, String, ◌≡◌, ◌≢◌, refl, true, Option, none, some, List, [], ◌∷◌, arith, all, length, ltb, inl,
  inr,
}
use oacp.Js.Set
use oacp.Protocol.Errors.{Result, ok, err, Result-cases}
use oacp.Workflow.Plan.{SubtaskPlanStep, SubtaskPlan}
use oacp.Workflow.Batches.{ids, deps_of, flatten}
use oacp.Workflow.Batches.Built.{has_self}
use oacp.Workflow.Batches.Counts.{nodup}
use oacp.Workflow.Batches.Spec.{deps_in, IsSchedule}
use oacp.Workflow.Batches.Schedule.{plan_execution_batches-total, plan_execution_batches-IsSchedule}
use oacp.Workflow.Batches.Acyclic.{plan_execution_batches-acyclic}
use oacp.Workflow.Validation.{
  check_steps, execution_batches, discard, assert_acyclic, validate_steps, validate_subtask_plan,
}
use oacp.Workflow.Validation.Valid.{is_complete_step, check_steps-ok, unseen-nil}

check_all-ok :
    (steps : List SubtaskPlanStep)
    → check_steps steps [] steps ≡ ok tt
    → (all (is_complete_step steps) steps ≡ true) × (nodup (ids steps) ≡ true)
unfolding Set.has
check_all-ok steps h =
    let (there, back) =
      check_steps-ok steps [] steps (has_self (ids steps)) (λ a m. ground (arith, m)) in
    let (complete, distinct, new) = there h in (complete, distinct)

discard-total :
    (o : Option (Result (List (List String)))) (r : Result (List (List String)))
    → o ≡ some r
    → (u : Result (Unit {0})) × (discard o ≡ some u)
unfolding discard
discard-total o (ok bs) h = (ok tt, rw (h, discard))
discard-total o (err e) h = (err e, rw (h, discard))

validate_steps-total :
    (steps : List SubtaskPlanStep) → (r : Result (Unit {0})) × (validate_steps steps ≡ some r)
unfolding validate_steps assert_acyclic execution_batches
validate_steps-total [] = (_, refl)
validate_steps-total (s ∷ steps) = elim (Result-cases (check_steps (s ∷ steps) [] (s ∷ steps))) [
  | inr (e, failed) ↦ (err e, rw (failed, validate_steps))
  | inl (u, fine) ↦
      let (complete, distinct) = check_all-ok (s ∷ steps) fine in
      let (r, ends) =
        plan_execution_batches-total (s ∷ steps) (length (s ∷ steps)) distinct (omega arith) in
      let (v, e) = discard-total (execution_batches (s ∷ steps)) r ends in
      (v, rw (fine, validate_steps) e)
]

-- Every plan is validated, with an outcome or an error: the search for batches ends.
pub validate_subtask_plan-total :
    (plan : SubtaskPlan) → (r : Result (Unit {0})) × (validate_subtask_plan plan ≡ some r)
unfolding validate_subtask_plan
validate_subtask_plan-total plan = validate_steps-total plan.steps

discard-ok :
    (o : Option (Result (List (List String)))) (u : Unit {0})
    → discard o ≡ some (ok u)
    → (bs : List (List String)) × (o ≡ some (ok bs))
unfolding discard
discard-ok none u h = absurd (ground (arith, h))
discard-ok (some (ok bs)) u h = (bs, refl)
discard-ok (some (err e)) u h = absurd (ground (arith, h))

-- What an accepted plan is like.
pub record IsExecutable (steps : List SubtaskPlanStep) : Type 0 where
  pub some_step : steps ≢ []
  pub complete : all (is_complete_step steps) steps ≡ true
  pub distinct : nodup (ids steps) ≡ true
  pub batches : List (List String)
  pub batched : execution_batches steps ≡ some (ok batches)
  pub ordered : IsSchedule (deps_in steps) [] batches
  pub once : nodup (flatten batches) ≡ true
  pub all_of_them : (i : String) → Set.has (flatten batches) i ≡ Set.has (ids steps) i

validate_steps-IsExecutable :
    (steps : List SubtaskPlanStep) → validate_steps steps ≡ some (ok tt) → IsExecutable steps
unfolding validate_steps assert_acyclic execution_batches
validate_steps-IsExecutable [] h = absurd (ground (arith, h))
validate_steps-IsExecutable (s ∷ steps) h =
    elim (Result-cases (check_steps (s ∷ steps) [] (s ∷ steps))) [
      | inr (e, failed) ↦ absurd (ground (arith, h, failed))
      | inl (u, fine) ↦
          let (complete, distinct) = check_all-ok (s ∷ steps) fine in
          let (bs, e) =
            discard-ok (execution_batches (s ∷ steps)) tt (rw (fine, validate_steps) at h) in
          let (ordered, once, same) =
            plan_execution_batches-IsSchedule (s ∷ steps) (length (s ∷ steps)) bs distinct
              (omega arith) e in
          record {
            some_step = λ k. cc;
            complete = complete;
            distinct = distinct;
            batches = bs;
            batched = e;
            ordered = ordered;
            once = once;
            all_of_them = same;
          }
    ]

-- An accepted plan has a step, and its steps have distinct ids that are not blank, capabilities that are
-- not blank, an input or a way to compute it, and dependencies that are steps; and its batches hold each
-- step once, after all its dependencies.
pub validate_subtask_plan-IsExecutable :
    (plan : SubtaskPlan) → validate_subtask_plan plan ≡ some (ok tt) → IsExecutable plan.steps
unfolding validate_subtask_plan
validate_subtask_plan-IsExecutable plan h = validate_steps-IsExecutable plan.steps h

deps_known :
    (all_steps steps : List SubtaskPlanStep)
    → all (is_complete_step all_steps) steps ≡ true
    → all (λ s. all (Set.has (ids all_steps)) (deps_of s)) steps ≡ true
deps_known all_steps [] h = refl
deps_known all_steps (s ∷ steps) h = ground (arith, h, deps_known all_steps steps)

validate_steps-acyclic :
    (steps : List SubtaskPlanStep) (rank : String → ℕ)
    → steps ≢ []
    → all (is_complete_step steps) steps ≡ true
    → nodup (ids steps) ≡ true
    → all (λ i. all (λ d. ltb (rank d) (rank i)) (deps_in steps i)) (ids steps) ≡ true
    → validate_steps steps ≡ some (ok tt)
unfolding validate_steps assert_acyclic execution_batches discard Set.has
validate_steps-acyclic [] rank k c u falls = absurd (k refl)
validate_steps-acyclic (s ∷ steps) rank k c u falls =
    let (there, back) =
      check_steps-ok (s ∷ steps) [] (s ∷ steps) (has_self (ids (s ∷ steps)))
        (λ a m. ground (arith, m)) in
    let (bs, e) =
      plan_execution_batches-acyclic (s ∷ steps) (length (s ∷ steps)) rank u (omega arith)
        (deps_known (s ∷ steps) (s ∷ steps) c) falls in
    rw (back (c, u, unseen-nil (ids (s ∷ steps))), validate_steps) (rw (e, discard))

-- A plan is accepted if it has a step, its steps are complete with distinct ids, and ranks can be given to
-- the ids such that every dependency of a step ranks below it, so that there is no cycle.
pub validate_subtask_plan-acyclic :
    (plan : SubtaskPlan) (rank : String → ℕ)
    → plan.steps ≢ []
    → all (is_complete_step plan.steps) plan.steps ≡ true
    → nodup (ids plan.steps) ≡ true
    → all (λ i. all (λ d. ltb (rank d) (rank i)) (deps_in plan.steps i)) (ids plan.steps) ≡ true
    → validate_subtask_plan plan ≡ some (ok tt)
unfolding validate_subtask_plan
validate_subtask_plan-acyclic plan rank k c u falls =
    validate_steps-acyclic plan.steps rank k c u falls
