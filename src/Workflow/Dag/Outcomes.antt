-- ===== src/Workflow/Dag/Outcomes.antt =====
-- The steps of a batch, and the recording of their results.
use oacp.Prelude.{
  String, ◌≡◌, ◌⊎◌, refl, ◌∙◌, Bool, true, ◌||◌, Option, none, some, List, [], ◌∷◌, ◌++◌, arith,
  map, all, ◌==◌, eq_iff, Option-cases, inl, inr, if_ind, Bool-cases,
}
use oacp.Js.Map
use oacp.Js.Map.{Map, get-set}
use oacp.Js.Set
use oacp.Js.Set.{has-append, has-of_all, all-of_has}
use oacp.Protocol.Json.{Fields}
use oacp.Protocol.Messages.{TaskStatus, success, error}
use oacp.Protocol.Errors.{Result, ok, err}
use oacp.Workflow.Plan.{SubtaskPlan, SubtaskPlanStep, SubtaskPlanStepResult}
use oacp.Workflow.Batches.{deps_of}
use oacp.Workflow.Batches.Spec.{deps_in}
use oacp.Workflow.Dag.{
  DagStepHandler, Execution, BatchFlow, stops, goes_on, step_by_id, note_message_id, join,
  call_step, call_batch, completes, record_outcomes,
}

all_left : (p : String → Bool) (xs ys : List String) → all p (xs ++ ys) ≡ true → all p xs ≡ true
all_left p [] ys h = refl
all_left p (x ∷ xs) ys h = ground (arith, h, all_left p xs ys)

all_right : (p : String → Bool) (xs ys : List String) → all p (xs ++ ys) ≡ true → all p ys ≡ true
all_right p [] ys h = h
all_right p (x ∷ xs) ys h = all_right p xs ys (ground (arith, h))

-- What is found under an id has that id, and what holds of the dependencies under the id holds of its own.
step_by_id-deps :
    (p : String → Bool) (m : Map SubtaskPlanStep) (steps : List SubtaskPlanStep) (i : String)
    (s : SubtaskPlanStep)
    → (Map.get m i ≡ some s → (s.id ≡ i) × (all p (deps_of s) ≡ true))
    → all p (deps_in steps i) ≡ true
    → Map.get (step_by_id m steps) i ≡ some s
    → (s.id ≡ i) × (all p (deps_of s) ≡ true)
unfolding step_by_id deps_in
step_by_id-deps p m [] i s old h e = old e
step_by_id-deps p m (t ∷ steps) i s old h e = elim (Bool-cases (t.id == i)) [
  | inr other ↦
      step_by_id-deps p (Map.set m t.id t) steps i s
        (λ k. old (ground (arith, k, other, get-set m t.id i t))) (ground (arith, h, other)) e
  | inl same ↦
      step_by_id-deps p (Map.set m t.id t) steps i s
        (λ k.
          let eq : t ≡ s = ground (arith, k, same, get-set m t.id i t) in
          (
            rw (← eq) (ground (arith, same, eq_iff t.id i)),
            rw (← eq) (all_left p (deps_of t) (deps_in steps i) (ground (arith, h, same))),
          ))
        (all_right p (deps_of t) (deps_in steps i) (ground (arith, h, same))) e
]

pub found :
    (p : String → Bool) (steps : List SubtaskPlanStep) (i : String) (s : SubtaskPlanStep)
    → all p (deps_in steps i) ≡ true
    → Map.get (step_by_id [] steps) i ≡ some s
    → (s.id ≡ i) × (all p (deps_of s) ≡ true)
unfolding Map.get
found p steps i s h e = step_by_id-deps p [] steps i s (λ k. absurd (ground (arith, k))) h e

join-ids :
    (s : SubtaskPlanStep) (r : Result SubtaskPlanStepResult)
    (rest : Result (List (SubtaskPlanStep × SubtaskPlanStepResult))) (batch : List String)
    (os : List (SubtaskPlanStep × SubtaskPlanStepResult))
    → ((os' : List (SubtaskPlanStep × SubtaskPlanStepResult))
        → rest ≡ ok os'
        → map (λ o. o.0.id) os' ≡ batch)
    → join s r rest ≡ ok os
    → map (λ o. o.0.id) os ≡ s.id ∷ batch
unfolding join
join-ids s (err e) rest batch os k h = absurd (ground (arith, h))
join-ids s (ok r) (err e) batch os k h = absurd (ground (arith, h))
join-ids s (ok r) (ok rest) batch os k h = ground (arith, h, k rest refl)

pub status-cases : (s : TaskStatus) → (s ≡ success) ⊎ (s ≡ error)
status-cases success = inl refl
status-cases error = inr refl

unfoldable pub flow_execution : {W : Type 0} → BatchFlow W → Execution W
flow_execution (stops r x) = x
flow_execution (goes_on x) = x

module _ {W : Type 0} (handler : DagStepHandler W) (plan : SubtaskPlan) (input : Fields)
    (trace_id : String) where
  -- The steps of the outcomes of a batch are those of the batch.
  pub call_batch-ids :
      (x : Execution W) (batch : List String) (w : W)
      (os : List (SubtaskPlanStep × SubtaskPlanStepResult))
      → (call_batch handler plan input trace_id x batch w).0 ≡ ok os
      → map (λ o. o.0.id) os ≡ batch
  unfolding call_batch
  call_batch-ids x [] w os h = ground (arith, h)
  call_batch-ids x (id ∷ batch) w os h =
      elim (Option-cases (Map.get (step_by_id [] plan.steps) id)) [
        | inl absent ↦ absurd (ground (arith, rw (absent, call_batch) at h))
        | inr (s, e) ↦
            let (result, after) = call_step handler plan input trace_id x s w in
            let (same, fine) =
              found (λ d. true) plan.steps id s (all_of_true (deps_in plan.steps id)) e in
            join-ids s result (call_batch handler plan input trace_id x batch after).0 batch os
              (call_batch-ids x batch after) (rw (e, call_batch) at h)
            ∙ rw same
      ]
    where
      all_of_true : (xs : List String) → all (λ d. true) xs ≡ true
      all_of_true [] = refl
      all_of_true (y ∷ xs) = all_of_true xs

  -- Only the recording of results changes the results.
  note-results :
      (id : String) (m : Option String) (x : Execution W)
      → ((note_message_id id m x).step_results ≡ x.step_results)
        × ((note_message_id id m x).world ≡ x.world)
  unfolding note_message_id
  note-results id none x = (refl, refl)
  note-results id (some m) x = (refl, refl)

  pub record_outcomes-world :
      (fail_fast : Bool) (os : List (SubtaskPlanStep × SubtaskPlanStepResult)) (x : Execution W)
      → (flow_execution (record_outcomes handler plan input trace_id fail_fast os x)).world
        ≡ x.world
  unfolding record_outcomes completes flow_execution
  record_outcomes-world fail_fast [] x = refl
  record_outcomes-world fail_fast ((s, r) ∷ os) x = elim (status-cases r.status) [
    | inl fine ↦
        rw (fine, record_outcomes)
          (record_outcomes-world fail_fast os (
              note_message_id s.id r.request_message_id
                (completes handler plan input trace_id s r x))
            ∙ (note-results s.id r.request_message_id
                (completes handler plan input trace_id s r x)).1)
    | inr failed ↦
        rw (failed, record_outcomes)
          (if_ind (λ f. (flow_execution f).world ≡ x.world) fail_fast (λ _. refl)
            (λ _. record_outcomes-world fail_fast os (completes handler plan input trace_id s r x)))
  ]

  pub record_outcomes-results :
      (fail_fast : Bool) (os : List (SubtaskPlanStep × SubtaskPlanStepResult)) (x y : Execution W)
      (d : String)
      → record_outcomes handler plan input trace_id fail_fast os x ≡ goes_on y
      → Map.has y.step_results d ≡ (Map.has x.step_results d || Set.has (map (λ o. o.0.id) os) d)
  unfolding record_outcomes completes Set.has
  record_outcomes-results fail_fast [] x y d h = ground (arith, h)
  record_outcomes-results fail_fast ((s, r) ∷ os) x y d h = elim (status-cases r.status) [
    | inl fine ↦ ground (
      arith,
      get-set x.step_results s.id d r,
      note-results s.id r.request_message_id (completes handler plan input trace_id s r x),
      record_outcomes-results fail_fast os
          (note_message_id s.id r.request_message_id (completes handler plan input trace_id s r x))
          y d (rw (fine, record_outcomes) at h),
    )
    | inr failed ↦ elim (Bool-cases fail_fast) [
      | inl fast ↦ absurd (ground (arith, rw (failed, fast, record_outcomes) at h))
      | inr slow ↦ ground (
        arith,
        get-set x.step_results s.id d r,
        record_outcomes-results fail_fast os (completes handler plan input trace_id s r x) y d
            (rw (failed, slow, record_outcomes) at h),
      )
    ]
  ]
