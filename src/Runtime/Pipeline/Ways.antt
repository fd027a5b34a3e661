-- ===== src/Runtime/Pipeline/Ways.antt =====
-- The ways in which a run of core/src/runtime/pipeline.ts ends.
use oacp.Prelude.{
  String, ◌≡◌, refl, ap, ◌∙◌, ◌⊎◌, inl, inr, Bool, true, Option, some, List, [], ◌∷◌, ◌++◌, map,
  all, arith, or_else,
}
use mathlib.Core.List.{append_assoc}
use oacp.Protocol.Json.{Fields}
use oacp.Protocol.Errors.{OacpError, Result, ok, err}
use oacp.Protocol.Messages.{
  TaskStatus, success, error, TaskErrorBody, TaskRequestMessage, TaskResponseMessage,
}
use oacp.Resilience.Send.{SendTaskParams, SendTaskOutcome, delivered, undelivered}
use oacp.Workflow.Steps.{error_body, status_of}
use oacp.Runtime.Pipeline.{
  PipelineStepResult, PipelineContext, PipelineStep, PipelineRunResult, run_success, run_failure,
  output_of_last, step_result, step_failed_error, StepFlow, stops, goes_on, after_step,
}

-- An executor that keeps what it was asked to send.
abbrev pub logging :
    {W : Type 0}
    → (SendTaskParams → W → Result SendTaskOutcome × W)
    → SendTaskParams
    → List SendTaskParams × W
    → Result SendTaskOutcome × (List SendTaskParams × W)
logging send p (log, w) = ((send p w).0, (log ++ p ∷ [], (send p w).1))

abbrev pub step_ids : List PipelineStepResult → List String
step_ids = map (λ r. r.step_id)

abbrev pub ids : List PipelineStep → List String
ids = map (λ s. s.id)

abbrev pub capabilities : List PipelineStep → List String
capabilities = map (λ s. s.capability)

abbrev pub sent : List SendTaskParams → List String
sent = map (λ p. p.capability)

abbrev pub is_success : PipelineStepResult → Bool
is_success r = elim r.status [ success ↦ true | error ↦ Bool.false ]

-- How a run ends: all steps succeeded, each sent once and in order; or the run was stopped at a step, those
-- before it succeeded, and none after it was sent; or it was rejected at a step, before it was sent by what
-- its `mapInput` threw, or by its own sending.
pub data IsRun {W : Type 0} (send : SendTaskParams → W → Result SendTaskOutcome × W)
    (steps : List PipelineStep) (results : List PipelineStepResult) (log log' : List SendTaskParams)
    : Result PipelineRunResult → Type 0 where
  completes :
      (trace_id : String) (rs : List PipelineStepResult) (output : Option Fields)
      → step_ids rs ≡ step_ids results ++ ids steps
      → all is_success rs ≡ true
      → sent log' ≡ sent log ++ capabilities steps
      → output ≡ output_of_last rs
      → IsRun send steps results log log' (ok (run_success trace_id rs output))
  fails_at :
      (before : List PipelineStep) (step : PipelineStep) (after : List PipelineStep)
      (trace_id id : String) (rs done : List PipelineStepResult) (e : TaskErrorBody)
      → steps ≡ before ++ step ∷ after
      → id ≡ step.id
      → step_ids done ≡ step_ids results ++ ids before
      → all is_success done ≡ true
      → (rs ≡ done)
        ⊎ ((r : PipelineStepResult) × (rs ≡ done ++ r ∷ [])
            × (r.step_id ≡ step.id)
            × (r.status ≡ error))
      → sent log' ≡ sent log ++ capabilities (before ++ step ∷ [])
      → IsRun send steps results log log' (ok (run_failure trace_id id rs e))
  throws_at :
      (before : List PipelineStep) (step : PipelineStep) (after : List PipelineStep)
      (f : PipelineContext → Result Fields) (c : PipelineContext) (e : OacpError)
      → steps ≡ before ++ step ∷ after
      → step.map_input ≡ some f
      → f c ≡ err e
      → step_ids c.step_results ≡ step_ids results ++ ids before
      → sent log' ≡ sent log ++ capabilities before
      → IsRun send steps results log log' (err e)
  rejects_at :
      (before : List PipelineStep) (step : PipelineStep) (after : List PipelineStep)
      (p : SendTaskParams) (w : W) (e : OacpError)
      → steps ≡ before ++ step ∷ after
      → p.capability ≡ step.capability
      → (send p w).0 ≡ err e
      → sent log' ≡ sent log ++ capabilities (before ++ step ∷ [])
      → IsRun send steps results log log' (err e)

pub map-append {ℓ κ} :
    {A : Type ℓ} {B : Type κ} (f : A → B) (xs ys : List A) → map f (xs ++ ys) ≡ map f xs ++ map f ys
map-append f [] ys = refl
map-append f (x ∷ xs) ys = ap (λ l. f x ∷ l) (map-append f xs ys)

pub all-concat :
    (rs : List PipelineStepResult) (r : PipelineStepResult)
    → all is_success rs ≡ true
    → r.status ≡ success
    → all is_success (rs ++ r ∷ []) ≡ true
all-concat [] r h e = ground (arith, e)
all-concat (x ∷ rs) r h e = ground (arith, all-concat rs r, h, e)

abbrev pub Stopped : PipelineStep → List PipelineStepResult → StepFlow → Type 0
Stopped step results f =
    (rs : List PipelineStepResult) × (e : TaskErrorBody) × (f ≡ stops rs e)
    × ((rs ≡ results)
        ⊎ ((r : PipelineStepResult) × (rs ≡ results ++ r ∷ [])
            × (r.step_id ≡ step.id)
            × (r.status ≡ error)))

abbrev pub WentOn : PipelineStep → List PipelineStepResult → StepFlow → Type 0
WentOn step results f =
    (r : PipelineStepResult) × (f ≡ goes_on (results ++ r ∷ []))
    × (r.step_id ≡ step.id)
    × (r.status ≡ success)

after_step-success :
    (step : PipelineStep) (results : List PipelineStepResult) (request : TaskRequestMessage)
    (response : Option TaskResponseMessage)
    → status_of response ≡ success
    → after_step step results (delivered request response)
      ≡ goes_on (results ++ step_result step response ∷ [])
unfolding after_step
after_step-success step results request response h = rw (h, after_step) refl

after_step-error :
    (step : PipelineStep) (results : List PipelineStepResult) (request : TaskRequestMessage)
    (response : Option TaskResponseMessage)
    → status_of response ≡ error
    → after_step step results (delivered request response)
      ≡ stops
          (results ++ step_result step response ∷ [])
          (or_else (step_result step response).error step_failed_error)
unfolding after_step
after_step-error step results request response h = rw (h, after_step) refl

pub after_step-cases :
    (step : PipelineStep) (results : List PipelineStepResult) (o : SendTaskOutcome)
    → Stopped step results (after_step step results o)
      ⊎ WentOn step results (after_step step results o)
unfolding after_step step_result
after_step-cases step results (undelivered e) = inl (results, error_body e, refl, inl refl)
after_step-cases step results (delivered request response) = go (status_of response) refl
  where
    go :
        (s : TaskStatus)
        → status_of response ≡ s
        → Stopped step results (after_step step results (delivered request response))
          ⊎ WentOn step results (after_step step results (delivered request response))
    go success h =
        inr (step_result step response, after_step-success step results request response h, refl, h)
    go error h = inl (
      results ++ step_result step response ∷ [],
      or_else (step_result step response).error step_failed_error,
      after_step-error step results request response h,
      inr (step_result step response, refl, refl, h),
    )

-- The conclusion from one step to the run, where the run goes on.
pub IsRun-step :
    {W : Type 0} (send : SendTaskParams → W → Result SendTaskOutcome × W) (step : PipelineStep)
    (steps : List PipelineStep) (results : List PipelineStepResult) (r : PipelineStepResult)
    (log log' : List SendTaskParams) (p : SendTaskParams) (run : Result PipelineRunResult)
    → r.step_id ≡ step.id
    → p.capability ≡ step.capability
    → IsRun send steps (results ++ r ∷ []) (log ++ p ∷ []) log' run
    → IsRun send (step ∷ steps) results log log' run
IsRun-step send step steps results r log log' p _ i c (completes t rs output a b d e) =
    completes t rs output
      (a
        ∙ ap (λ l. l ++ ids steps)
            (map-append (λ (x : PipelineStepResult). x.step_id) results (r ∷ [])
              ∙ ap (λ x. step_ids results ++ x ∷ []) i)
        ∙ append_assoc (step_ids results) (step.id ∷ []) (ids steps))
      b
      (d
        ∙ ap (λ l. l ++ capabilities steps)
            (map-append (λ (x : SendTaskParams). x.capability) log (p ∷ [])
              ∙ ap (λ x. sent log ++ x ∷ []) c)
        ∙ append_assoc (sent log) (step.capability ∷ []) (capabilities steps))
      e
IsRun-step send step steps results r log log' p _ i c
      (fails_at before at after t id rs done e a b d f g h) =
    fails_at (step ∷ before) at after t id rs done e (ap (λ l. step ∷ l) a) b
      (d
        ∙ ap (λ l. l ++ ids before)
            (map-append (λ (x : PipelineStepResult). x.step_id) results (r ∷ [])
              ∙ ap (λ x. step_ids results ++ x ∷ []) i)
        ∙ append_assoc (step_ids results) (step.id ∷ []) (ids before))
      f g
      (h
        ∙ ap (λ l. l ++ capabilities (before ++ at ∷ []))
            (map-append (λ (x : SendTaskParams). x.capability) log (p ∷ [])
              ∙ ap (λ x. sent log ++ x ∷ []) c)
        ∙ append_assoc (sent log) (step.capability ∷ []) (capabilities (before ++ at ∷ [])))
IsRun-step send step steps results r log log' p _ i c (throws_at before at after f x e a b d g h) =
    throws_at (step ∷ before) at after f x e (ap (λ l. step ∷ l) a) b d
      (g
        ∙ ap (λ l. l ++ ids before)
            (map-append (λ (x : PipelineStepResult). x.step_id) results (r ∷ [])
              ∙ ap (λ x. step_ids results ++ x ∷ []) i)
        ∙ append_assoc (step_ids results) (step.id ∷ []) (ids before))
      (h
        ∙ ap (λ l. l ++ capabilities before)
            (map-append (λ (x : SendTaskParams). x.capability) log (p ∷ [])
              ∙ ap (λ x. sent log ++ x ∷ []) c)
        ∙ append_assoc (sent log) (step.capability ∷ []) (capabilities before))
IsRun-step send step steps results r log log' p _ i c (rejects_at before at after q w e a b d h) =
    rejects_at (step ∷ before) at after q w e (ap (λ l. step ∷ l) a) b d (
      h
      ∙ ap (λ l. l ++ capabilities (before ++ at ∷ []))
          (map-append (λ (x : SendTaskParams). x.capability) log (p ∷ [])
            ∙ ap (λ x. sent log ++ x ∷ []) c)
      ∙ append_assoc (sent log) (step.capability ∷ []) (capabilities (before ++ at ∷ [])))
