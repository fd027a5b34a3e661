-- ===== src/Runtime/Pipeline/Owned.antt =====
-- The class TaskPipeline of core/src/runtime/pipeline.ts stops the executor that it has made.
use oacp.Prelude.{arith, String, ◌≡◌, refl, ap, true, false, Option, List}
use oacp.Protocol.Json.{Fields}
use oacp.Protocol.Errors.{OacpError, Result, ok, err}
use oacp.Routing.Bus.Defs.{Bus}
use oacp.Resilience.Send.{SendTaskParams, SendTaskOutcome}
use oacp.Runtime.Lifecycle.{running, stopped, same_state, can_transition}
use oacp.Runtime.Agent.{AgentRuntime, is_running, start, stop, transition_error}
use oacp.Runtime.Pipeline.{PipelineStep}
use oacp.Runtime.Pipeline.Class.{TaskPipeline, start_pipeline, stop_pipeline, run_task_pipeline}

stop-stopped :
    (a : AgentRuntime) (bus : Bus) (s : AgentRuntime × Bus)
    → stop a bus ≡ ok s
    → s.0.state ≡ stopped
unfolding stop
stop-stopped a bus s e = grind arith

stop_pipeline-stopped :
    (p : TaskPipeline) (a : AgentRuntime) (bus : Bus) (s : AgentRuntime × Bus)
    → p.owns_executor ≡ true
    → stop_pipeline p (a, bus) ≡ ok s
    → s.0.state ≡ stopped
unfolding stop_pipeline
stop_pipeline-stopped p a bus s own e = grind (arith, stop-stopped)

start_pipeline-stopped :
    (invalid : Option OacpError) (s : AgentRuntime × Bus)
    → s.0.state ≡ stopped
    → start_pipeline invalid s ≡ err (transition_error s.0 running)
unfolding start_pipeline start
start_pipeline-stopped invalid s state =
    let off : is_running s.0 ≡ false = ap (λ x. same_state x running) state in
    let never : can_transition s.0.state running ≡ false =
      ap (λ x. can_transition x running) state in
    rw (off, never) refl

module _ {W : Type 0}
    (send_task : SendTaskParams
      → (AgentRuntime × Bus) × W
      → Result SendTaskOutcome × ((AgentRuntime × Bus) × W)) where
  -- A pipeline that made its own executor and has stopped it throws when it is run again, and nothing changes.
  pub stop_pipeline-refuses :
      (p : TaskPipeline) (invalid : Option OacpError) (fresh : String) (steps : List PipelineStep)
      (initial : Fields) (trace_id : Option String) (a : AgentRuntime) (bus : Bus) (w : W)
      (s : AgentRuntime × Bus)
      → p.owns_executor ≡ true
      → stop_pipeline p (a, bus) ≡ ok s
      → run_task_pipeline send_task p invalid fresh steps initial trace_id (s, w)
        ≡ (err (transition_error s.0 running), (s, w))
  unfolding run_task_pipeline
  stop_pipeline-refuses p invalid fresh steps initial trace_id a bus w s own e =
      rw
        (
          start_pipeline-stopped invalid s (stop_pipeline-stopped p a bus s own e),
          run_task_pipeline,
        )
        refl
