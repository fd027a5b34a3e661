-- ===== src/Runtime/Pipeline/Prefix.antt =====
-- A run of core/src/runtime/pipeline.ts goes through the steps in order and ends at the first that fails, throws
-- or rejects.
use oacp.Prelude.{ℕ, String, List}
use oacp.Protocol.Json.{Fields}
use oacp.Protocol.Errors.{Result}
use oacp.Resilience.Send.{SendTaskParams, SendTaskOutcome}
use oacp.Runtime.Pipeline.{PipelineStepResult, PipelineStep, PipelineRunResult}
use oacp.Runtime.Pipeline.Ways.{IsRun}

module _ {W : Type 0} (send_task : SendTaskParams → W → Result SendTaskOutcome × W)
    (initial : Fields) (trace_id : String) (timeout : ℕ) where
  abbrev Ending :
      List PipelineStep
      → List PipelineStepResult
      → List SendTaskParams
      → Result PipelineRunResult × (List SendTaskParams × W)
      → Type 0
  Ending steps results log r = IsRun send_task steps results log r.1.0 r.0
