-- ===== src/Tests/Pipeline.antt =====
-- The theorems on the class TaskPipeline at concrete inputs.
use oacp.Prelude.{ℕ, ◌+◌, ◌≡◌, refl, none, some, List, [], ◌∷◌}
use oacp.Protocol.Errors.{Result, ok, err}
use oacp.Routing.Bus.Defs.{Bus, create}
use oacp.Resilience.Send.{SendTaskParams, SendTaskOutcome, delivered}
use oacp.Runtime.Lifecycle.{running}
use oacp.Runtime.Agent.{create_agent_runtime, AgentRuntime, start, stop, transition_error}
use oacp.Runtime.Pipeline.{PipelineStep}
use oacp.Runtime.Pipeline.Class.{
  identity, TaskPipeline, create_pipeline, start_pipeline, stop_pipeline, run_task_pipeline,
}
use oacp.Runtime.Pipeline.Owned.{stop_pipeline-refuses}
use oacp.Tests.Data.{input, request_of, response_to, no_options}

abbrev World : Type 0
World = (AgentRuntime × Bus) × ℕ

abbrev answering : SendTaskParams → World → Result SendTaskOutcome × World
answering p (s, n) = (ok (delivered (request_of "m1" p.to) (some (response_to "m1"))), (s, n + 1))

abbrev steps : List PipelineStep
steps = record { id = "s1"; capability = "sum"; to = none; map_input = none } ∷ []

abbrev made : TaskPipeline × AgentRuntime
made = create_pipeline 7 (record {
  executor = identity (record { id = "agent://c"; capabilities = [] });
  timeout_ms = none;
})

abbrev bus : Bus
bus = create no_options

abbrev started : AgentRuntime × Bus
started = elim (start_pipeline none (made.1, bus)) [ ok s ↦ s | err e ↦ (made.1, bus) ]

abbrev ended : AgentRuntime × Bus
ended = elim (stop_pipeline made.0 started) [ ok s ↦ s | err e ↦ started ]

stop_pipeline-refuses_example :
    run_task_pipeline answering made.0 none "trace-1" steps input none (ended, 0)
    ≡ (err (transition_error ended.0 running), (ended, 0))
unfolding create_agent_runtime create_pipeline start_pipeline stop_pipeline start stop
stop_pipeline-refuses_example =
    stop_pipeline-refuses answering made.0 none "trace-1" steps input none started.0 started.1 0
      ended refl refl
