-- ===== src/Runtime/Pipeline/Class.antt =====
-- The class TaskPipeline of core/src/runtime/pipeline.ts. Its executor, an agent of `Runtime.Agent`, and the agent's bus are
-- states that the operations change; W is the rest of the world that sending a task acts on.
use oacp.Prelude.{ℕ, String, Bool, true, false, Option, none, some, List, or_else, if◌then◌else◌}
use oacp.Protocol.Json.{Fields}
use oacp.Protocol.Errors.{OacpError, Result, ok, err}
use oacp.Protocol.Capabilities.{AgentIdentity}
use oacp.Routing.Bus.Defs.{Bus}
use oacp.Resilience.Send.{SendTaskParams, SendTaskOutcome}
use oacp.Runtime.Agent.{
  AgentRuntimeOptions, AgentRuntime, create_agent_runtime, is_running, start, stop,
}
use oacp.Runtime.Pipeline.{PipelineStep, PipelineRunResult, run_pipeline}

pub data ExecutorOption : Type 0 where
  runtime : AgentRuntime → ExecutorOption
  identity : AgentIdentity → ExecutorOption

pub record TaskPipelineOptions : Type 0 where
  pub executor : ExecutorOption
  pub timeout_ms : Option ℕ

pub record TaskPipeline : Type 0 where
  pub owns_executor : Bool
  pub timeout_ms : ℕ

-- The number stands for the new runtime's own handler of messages.
abbrev runtime_options : ℕ → AgentIdentity → AgentRuntimeOptions
runtime_options handler i = record {
  id = i.id;
  capabilities = i.capabilities;
  handler = handler;
  on_task = false;
  auto_handle_tasks = none;
  use_mailbox = none;
  default_response_timeout_ms = none;
  memory_scope = none;
}

-- The pipeline and its executor.
unfoldable pub create_pipeline : ℕ → TaskPipelineOptions → TaskPipeline × AgentRuntime
create_pipeline handler options =
    let timeout : ℕ = or_else options.timeout_ms 30000 in
    elim options.executor [
      | runtime a ↦ (record { owns_executor = false; timeout_ms = timeout }, a)
      | identity i ↦ (
        record { owns_executor = true; timeout_ms = timeout },
        create_agent_runtime (runtime_options handler i),
      )
    ]

unfoldable pub start_pipeline : Option OacpError → AgentRuntime × Bus → Result (AgentRuntime × Bus)
start_pipeline invalid (a, bus) = if is_running a then ok (a, bus) else start invalid a bus

unfoldable pub stop_pipeline : TaskPipeline → AgentRuntime × Bus → Result (AgentRuntime × Bus)
stop_pipeline p (a, bus) = if p.owns_executor then stop a bus else ok (a, bus)

module _ {W : Type 0}
    (send_task : SendTaskParams
      → (AgentRuntime × Bus) × W
      → Result SendTaskOutcome × ((AgentRuntime × Bus) × W)) where
  -- `trace_id` is the one of the options; a `start` that throws ends the call.
  unfoldable pub run_task_pipeline :
      TaskPipeline
      → Option OacpError
      → String
      → List PipelineStep
      → Fields
      → Option String
      → (AgentRuntime × Bus) × W
      → Result PipelineRunResult × ((AgentRuntime × Bus) × W)
  run_task_pipeline p invalid fresh steps initial trace_id (s, w) =
      elim (start_pipeline invalid s) [
        | err e ↦ (err e, (s, w))
        | ok started ↦
            run_pipeline send_task fresh steps initial
              (record { trace_id = trace_id; timeout_ms = some p.timeout_ms }) (started, w)
      ]
