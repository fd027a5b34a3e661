-- ===== src/Workflow/Dag/Ready.antt =====
-- Which calls of its handler `executeDagPlan` makes.
use oacp.Prelude.{
  String, ◌≡◌, refl, sym, ◌∙◌, ap, Bool, true, Option, some, List, [], ◌∷◌, ◌++◌, arith, map, all,
  or_else, Option-cases, inl, inr,
}
use oacp.Js.Map
use oacp.Js.Map.{Map, get-set}
use oacp.Js.Set
use oacp.Js.Set.{has-append, has-of_all, all-of_has}
use oacp.Protocol.Json.{Fields}
use oacp.Protocol.Errors.{Result, ok, err, Result-cases}
use oacp.Workflow.Plan.{SubtaskPlan, SubtaskPlanStep, SubtaskPlanStepResult}
use oacp.Workflow.Batches.{deps_of}
use oacp.Workflow.Batches.Spec.{deps_in, IsSchedule}
use oacp.Workflow.Validation.{validate_subtask_plan}
use oacp.Workflow.Validation.Accepts.{
  validate_subtask_plan-IsExecutable, validate_subtask_plan-total,
}
use oacp.Workflow.Dag.{
  DagStepExecutionContext, DagStepHandler, SubtaskPlanExecutionResult, Execution, BatchFlow, stops,
  goes_on, step_by_id, context_for, resolve_step_input, call_step, call_batch, record_outcomes,
  run_batch, run_batches, finish, no_execution, execute_batches, execute_dag_plan,
}
use oacp.Workflow.Dag.Outcomes.{
  found, flow_execution, call_batch-ids, record_outcomes-world, record_outcomes-results,
}

-- The handler, which also writes down what it is called with.
abbrev pub recording :
    {W : Type 0}
    → DagStepHandler W
    → DagStepHandler (W × List (SubtaskPlanStep × DagStepExecutionContext))
recording handler step context (w, log) =
    let (result, after) = handler step context w in (result, (after, log ++ (step, context) ∷ []))

-- The context of a call has a result for each dependency of the step.
abbrev pub is_ready : SubtaskPlanStep × DagStepExecutionContext → Bool
is_ready (step, context) = all (λ d. Map.has context.step_results d) (deps_of step)

all-concat_call :
    (p : SubtaskPlanStep × DagStepExecutionContext → Bool)
    (xs : List (SubtaskPlanStep × DagStepExecutionContext))
    (x : SubtaskPlanStep × DagStepExecutionContext)
    → all p xs ≡ true
    → p x ≡ true
    → all p (xs ++ x ∷ []) ≡ true
all-concat_call p [] x h k = ground (arith, h, k)
all-concat_call p (y ∷ xs) x h k = ground (arith, h, k, all-concat_call p xs x)

module _ {W : Type 0} (handler : DagStepHandler W) (plan : SubtaskPlan) (input : Fields)
    (trace_id : String) where
  abbrev Log : Type 0
  Log = List (SubtaskPlanStep × DagStepExecutionContext)

  call_step-ready :
      (x : Execution (W × Log)) (s : SubtaskPlanStep) (w : W × Log)
      → all is_ready w.1 ≡ true
      → is_ready (s, context_for (recording handler) plan input trace_id x s) ≡ true
      → all is_ready (call_step (recording handler) plan input trace_id x s w).1.1 ≡ true
  unfolding call_step
  call_step-ready x s w k ready =
      elim (Result-cases (resolve_step_input (recording handler) plan input trace_id x s)) [
        | inl (a, fine) ↦
            rw (fine, call_step)
              (all-concat_call is_ready w.1
                (s, context_for (recording handler) plan input trace_id x s) k ready)
        | inr (e, thrown) ↦ rw (thrown, call_step) k
      ]

  -- The calls of a batch are ready where the results hold the dependencies of its ids.
  call_batch-ready :
      (x : Execution (W × Log)) (batch : List String) (w : W × Log)
      → all (λ i. all (λ d. Map.has x.step_results d) (deps_in plan.steps i)) batch ≡ true
      → all is_ready w.1 ≡ true
      → all is_ready (call_batch (recording handler) plan input trace_id x batch w).1.1 ≡ true
  unfolding call_batch
  call_batch-ready x [] w h k = k
  call_batch-ready x (id ∷ batch) w h k =
      elim (Option-cases (Map.get (step_by_id [] plan.steps) id)) [
        | inl absent ↦ rw (absent, call_batch) (call_batch-ready x batch w (ground (arith, h)) k)
        | inr (s, e) ↦
            let (same, fine) =
              found (λ d. Map.has x.step_results d) plan.steps id s (ground (arith, h)) e in
            rw (e, call_batch)
              (call_batch-ready x batch _ (ground (arith, h))
                (call_step-ready x s w k (unfold context_for in fine)))
      ]

  all_imply :
      (p q : String → Bool) (xs : List String)
      → ((a : String) → p a ≡ true → q a ≡ true)
      → all p xs ≡ true
      → all q xs ≡ true
  all_imply p q [] v h = refl
  all_imply p q (a ∷ xs) v h = ground (arith, h, v a, all_imply p q xs v)

  -- Before a batch: the calls so far were ready, and what is done has a result.
  record IsUnderWay (done : List String) (x : Execution (W × Log)) : Type 0 where
    ready : all is_ready x.world.1 ≡ true
    results : (d : String) → Set.has done d ≡ true → Map.has x.step_results d ≡ true

  abbrev IsFlow : List String → BatchFlow (W × Log) → Type 0
  IsFlow done (stops r x) = all is_ready x.world.1 ≡ true
  IsFlow done (goes_on x) = IsUnderWay done x

  recorded-IsFlow :
      (fail_fast : Bool) (os : List (SubtaskPlanStep × SubtaskPlanStepResult))
      (done batch : List String) (x : Execution (W × Log)) (f : BatchFlow (W × Log))
      → map (λ o. o.0.id) os ≡ batch
      → IsUnderWay done x
      → record_outcomes (recording handler) plan input trace_id fail_fast os x ≡ f
      → IsFlow (done ++ batch) f
  unfolding flow_execution
  recorded-IsFlow fail_fast os done batch x (stops r y) b v e =
      rw
        (ap (λ g. (flow_execution g).world) (sym e)
          ∙ record_outcomes-world (recording handler) plan input trace_id fail_fast os x)
        v.ready
  recorded-IsFlow fail_fast os done batch x (goes_on y) b v e = record {
    ready =
        rw
          (ap (λ g. (flow_execution g).world) (sym e)
            ∙ record_outcomes-world (recording handler) plan input trace_id fail_fast os x)
          v.ready;
    results = λ d h. ground (
      arith,
      h,
      b,
      has-append done batch d,
      v.results d,
      record_outcomes-results (recording handler) plan input trace_id fail_fast os x y d e,
    );
  }

  run_batch-IsFlow :
      (fail_fast : Bool) (done batch : List String) (x : Execution (W × Log))
      → all (λ i. all (Set.has done) (deps_in plan.steps i)) batch ≡ true
      → IsUnderWay done x
      → IsFlow (done ++ batch) (run_batch (recording handler) plan input trace_id fail_fast batch x)
  unfolding run_batch
  run_batch-IsFlow fail_fast done batch x h v =
      let called = call_batch-ready x batch x.world (all_imply_in batch h) v.ready in
      elim (Result-cases (call_batch (recording handler) plan input trace_id x batch x.world).0) [
        | inr (e, failed) ↦ rw (failed, run_batch) called
        | inl (os, fine) ↦
            rw (fine, run_batch)
              (recorded-IsFlow fail_fast os done batch _ _
                (call_batch-ids (recording handler) plan input trace_id x batch x.world os fine)
                (record { ready = called; results = v.results }) refl)
      ]
    where
      all_imply_in :
          (b : List String)
          → all (λ i. all (Set.has done) (deps_in plan.steps i)) b ≡ true
          → all (λ i. all (λ d. Map.has x.step_results d) (deps_in plan.steps i)) b ≡ true
      all_imply_in b k =
          all_imply (λ i. all (Set.has done) (deps_in plan.steps i)) _ b
            (λ i.
              all_imply (Set.has done) (λ d. Map.has x.step_results d) (deps_in plan.steps i)
                v.results)
            k

  run_batches-ready :
      (fail_fast : Bool) (done : List String) (batches : List (List String))
      (x : Execution (W × Log))
      → IsSchedule (deps_in plan.steps) done batches
      → IsUnderWay done x
      → all is_ready
          (flow_execution
            (run_batches (recording handler) plan input trace_id fail_fast batches x)).world.1
        ≡ true
  unfolding run_batches flow_execution
  run_batches-ready fail_fast done [] x h v = v.ready
  run_batches-ready fail_fast done (batch ∷ batches) x h v =
      go (run_batch (recording handler) plan input trace_id fail_fast batch x)
        (run_batch-IsFlow fail_fast done batch x h.0 v)
        (λ y w. run_batches-ready fail_fast (done ++ batch) batches y h.1 w)
    where
      go :
          (f : BatchFlow (W × Log))
          → IsFlow (done ++ batch) f
          → ((y : Execution (W × Log))
              → IsUnderWay (done ++ batch) y
              → all is_ready
                  (flow_execution (
                    run_batches
                      (recording handler)
                      plan
                      input
                      trace_id
                      fail_fast
                      batches
                      y)).world.1
                ≡ true)
          → all is_ready
              (flow_execution {W = W × Log} (elim f [
                | stops r y ↦ stops r y
                | goes_on y ↦
                    run_batches (recording handler) plan input trace_id fail_fast batches y
              ])).world.1
            ≡ true
      go (stops r y) w rest = w
      go (goes_on y) w rest = rest y w

  finish-ready :
      (f : BatchFlow (W × Log))
      → (finish (recording handler) plan input trace_id f).1 ≡ flow_execution f
  unfolding finish flow_execution
  finish-ready (stops r x) = refl
  finish-ready (goes_on x) = refl

  -- The execution of a plan ends, and it calls the handler of a step only when there are results for all
  -- dependencies of the step: each call has them in its context.
  pub execute_dag_plan-ready :
      (fail_fast : Option Bool) (w : W)
      → (r : Result SubtaskPlanExecutionResult) × (x : Execution (W × Log)) × (execute_dag_plan
            (recording handler)
            plan
            input
            trace_id
            fail_fast
            (w, [])
          ≡ some (r, x))
        × (all is_ready x.world.1 ≡ true)
  unfolding execute_dag_plan execute_batches Set.has
  execute_dag_plan-ready fail_fast w =
      let (valid, ends) = validate_subtask_plan-total plan in go valid ends
    where
      go :
          (valid : Result (Unit {0}))
          → validate_subtask_plan plan ≡ some valid
          → (r : Result SubtaskPlanExecutionResult) × (x : Execution (W × Log)) × (execute_dag_plan
                (recording handler)
                plan
                input
                trace_id
                fail_fast
                (w, [])
              ≡ some (r, x))
            × (all is_ready x.world.1 ≡ true)
      go (err e) ends = (
        err e,
        no_execution (recording handler) plan input trace_id (w, []),
        rw (ends, execute_dag_plan),
        refl,
      )
      go (ok u) ends =
          let valid = validate_subtask_plan-IsExecutable plan ends in
          let first_execution = no_execution (recording handler) plan input trace_id (w, []) in
          let flow =
            run_batches (recording handler) plan input trace_id (or_else fail_fast true)
              valid.batches first_execution in
          (
            (finish (recording handler) plan input trace_id flow).0,
            (finish (recording handler) plan input trace_id flow).1,
            rw (ends, execute_dag_plan) (rw (valid.batched, execute_batches)),
            rw (finish-ready flow) (
                run_batches-ready (or_else fail_fast true) [] valid.batches first_execution
                  valid.ordered
                  (record { ready = refl; results = λ d h. absurd (ground (arith, h)) })),
          )
