-- ===== src/Runtime/Pipeline.antt =====
-- core/src/runtime/pipeline.ts: the steps of a pipeline, one after the other. The executor's `sendTask` is
-- a function of a world, and it may reject.
pub mod Ways
pub mod Prefix
pub mod Class
pub mod Owned
use oacp.Prelude.{ℕ, String, Option, none, some, List, [], ◌∷◌, ◌++◌, or_else, last?, find, ◌==◌}
use oacp.Protocol.Json.{Fields}
use oacp.Protocol.Errors.{Result, ok, err}
use oacp.Protocol.Messages.{TaskStatus, success, error, TaskErrorBody, TaskResponseMessage}
use oacp.Resilience.Send.{SendTaskParams, SendTaskOutcome, delivered, undelivered}
use oacp.Workflow.Steps.{error_body, status_of, sender_of, output_of, error_of}

pub record PipelineStepResult : Type 0 where
  pub step_id : String
  pub capability : String
  pub from : String
  pub status : TaskStatus
  pub output : Option Fields
  pub error : Option TaskErrorBody

pub record PipelineContext : Type 0 where
  pub initial_input : Fields
  pub trace_id : String
  pub step_results : List PipelineStepResult
  pub last_output : Option Fields

abbrev pub get_step_result : PipelineContext → String → Option PipelineStepResult
get_step_result c id = find (λ r. r.step_id == id) c.step_results

pub record PipelineStep : Type 0 where
  pub id : String
  pub capability : String
  pub to : Option String
  pub map_input : Option (PipelineContext → Result Fields)

pub data PipelineRunResult : Type 0 where
  run_success :
      (trace_id : String) (steps : List PipelineStepResult) (output : Option Fields)
      → PipelineRunResult
  run_failure :
      (trace_id failed_step_id : String) (steps : List PipelineStepResult) (error : TaskErrorBody)
      → PipelineRunResult

abbrev pub output_of_last : List PipelineStepResult → Option Fields
output_of_last results = elim (last? results) [ none ↦ none | some r ↦ r.output ]

abbrev pub build_pipeline_context : Fields → String → List PipelineStepResult → PipelineContext
build_pipeline_context initial trace_id results = record {
  initial_input = initial;
  trace_id = trace_id;
  step_results = results;
  last_output = output_of_last results;
}

abbrev pub default_step_input : PipelineContext → Fields
default_step_input c = or_else c.last_output c.initial_input

unfoldable pub step_input : PipelineStep → PipelineContext → Result Fields
step_input step c = elim step.map_input [ none ↦ ok (default_step_input c) | some f ↦ f c ]

unfoldable pub step_result : PipelineStep → Option TaskResponseMessage → PipelineStepResult
step_result step response = record {
  step_id = step.id;
  capability = step.capability;
  from = sender_of response "unknown";
  status = status_of response;
  output = output_of response;
  error = error_of response;
}

abbrev pub step_failed_error : TaskErrorBody
step_failed_error = record { code = "PIPELINE_STEP_ERROR"; message = "Step failed"; details = none }

-- What the loop does after the outcome of a step: it returns, or goes on with one result more.
pub data StepFlow : Type 0 where
  stops : List PipelineStepResult → TaskErrorBody → StepFlow
  goes_on : List PipelineStepResult → StepFlow

unfoldable pub after_step : PipelineStep → List PipelineStepResult → SendTaskOutcome → StepFlow
unfolding error_body
after_step step results (undelivered e) = stops results (error_body e)
after_step step results (delivered request response) =
    let r : PipelineStepResult = step_result step response in
    elim (status_of response) [
      | success ↦ goes_on (results ++ r ∷ [])
      | error ↦ stops (results ++ r ∷ []) (or_else r.error step_failed_error)
    ]

pub record RunPipelineOptions : Type 0 where
  pub trace_id : Option String
  pub timeout_ms : Option ℕ

unfoldable pub pipeline_params : String → ℕ → PipelineStep → Fields → SendTaskParams
pipeline_params trace_id timeout step input = record {
  capability = step.capability;
  input = input;
  to = step.to;
  deadline_ms = none;
  trace_id = some trace_id;
  parent_message_id = none;
  wait_for_response = none;
  timeout_ms = some timeout;
}

module _ {W : Type 0} (send_task : SendTaskParams → W → Result SendTaskOutcome × W) where
  -- What a `mapInput` throws and what a sending rejects with is what the run rejects with.
  unfoldable pub run_steps :
      Fields
      → String
      → ℕ
      → List PipelineStep
      → List PipelineStepResult
      → W
      → Result PipelineRunResult × W
  run_steps initial trace_id timeout [] results w =
      (ok (run_success trace_id results (output_of_last results)), w)
  run_steps initial trace_id timeout (step ∷ steps) results w =
      elim (step_input step (build_pipeline_context initial trace_id results)) [
        | err e ↦ (err e, w)
        | ok input ↦
            let (answer, after) = send_task (pipeline_params trace_id timeout step input) w in
            elim answer [
              | err e ↦ (err e, after)
              | ok outcome ↦ elim (after_step step results outcome) [
                | stops rs e ↦ (ok (run_failure trace_id step.id rs e), after)
                | goes_on rs ↦ run_steps initial trace_id timeout steps rs after
              ]
            ]
      ]

  -- The trace id is new where none is given.
  unfoldable pub run_pipeline :
      String → List PipelineStep → Fields → RunPipelineOptions → W → Result PipelineRunResult × W
  run_pipeline fresh steps initial options w =
      run_steps initial (or_else options.trace_id fresh) (or_else options.timeout_ms 30000) steps []
        w
