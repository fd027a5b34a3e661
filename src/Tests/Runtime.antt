-- ===== src/Tests/Runtime.antt =====
-- The runtime theorems at concrete inputs.
use oacp.Prelude.{ℕ, ◌≡◌, refl, true, false, none, some, List, [], ◌∷◌, get_elem?, is_some}
use oacp.Js.Map
use oacp.Routing.Bus.Defs.{create}
use oacp.Protocol.Errors.{Result, ok}
use oacp.Resilience.Send.{SendTaskParams, SendTaskOutcome, delivered}
use oacp.Runtime.Lifecycle.{running}
use oacp.Runtime.MessageFactory.{Fresh}
use oacp.Runtime.Pipeline.{PipelineStep, RunPipelineOptions}
use oacp.Runtime.Agent.{
  ResponseWait, AgentRuntimeOptions, AgentRuntime, create_agent_runtime, start,
  create_response_promise,
}
use oacp.Runtime.Agent.Tasks.{dispatch, consume_graph_context}
use oacp.Runtime.Agent.Events.{
  AgentEvent, starts, stops, dispatches, persists, receives, expires, step, run,
}
use oacp.Runtime.Agent.Correlation.{run-create-IsCorrelated}
use oacp.Runtime.Agent.Correlation.Waits.{IsCorrelated}
use oacp.Runtime.Agent.Stopped.{stop-never_settles}
use oacp.Runtime.Agent.Resolves.{run-resolves}
use oacp.Tests.Data.{input, request_of, response_to, no_options}

abbrev steps : List PipelineStep
steps =
    record { id = "s1"; capability = "sum"; to = none; map_input = none }
    ∷ record { id = "s2"; capability = "product"; to = some "agent://a"; map_input = none }
    ∷ []

-- Every request is answered with success, and the requests are counted.
abbrev answering : SendTaskParams → ℕ → Result SendTaskOutcome × ℕ
answering p n = (ok (delivered (request_of "m1" p.to) (some (response_to "m1"))), n)

abbrev pipeline_options : RunPipelineOptions
pipeline_options = record { trace_id = none; timeout_ms = none }

abbrev options : AgentRuntimeOptions
options = record {
  id = "agent://c";
  capabilities = "sum" ∷ [];
  handler = 0;
  on_task = false;
  auto_handle_tasks = none;
  use_mailbox = none;
  default_response_timeout_ms = none;
  memory_scope = none;
}

abbrev a_task : SendTaskParams
a_task = record {
  capability = "sum";
  input = input;
  to = none;
  deadline_ms = none;
  trace_id = none;
  parent_message_id = some "m0";
  wait_for_response = none;
  timeout_ms = none;
}

abbrev fresh : Fresh
fresh = record { message_id = "m1"; trace_id = "trace-1"; now = "2026-01-01T00:00:00Z" }

abbrev events : List AgentEvent
events = starts none ∷ dispatches fresh a_task ∷ persists "m1" ∷ []

abbrev answered : List AgentEvent
answered =
    starts none ∷ dispatches fresh a_task ∷ persists "m1" ∷ receives (response_to "m1") ∷ stops ∷ []

run-create-IsCorrelated_example :
    IsCorrelated (run (create no_options) (create_agent_runtime options) answered)
run-create-IsCorrelated_example = run-create-IsCorrelated (create no_options) options answered

abbrev a_wait : ResponseWait
a_wait = record { message_id = "m1"; timer_set = true; settled = none }

-- An agent that has sent a request and waits for the response.
abbrev waiting : AgentRuntime
waiting = record {
  id = "agent://c";
  capabilities = "sum" ∷ [];
  handler = 0;
  on_task = false;
  auto_handle_tasks = false;
  use_mailbox = true;
  default_response_timeout_ms = 30000;
  memory_scope = none;
  state = running;
  pending_responses = ("m1", 0) ∷ [];
  pending_graph_context = [];
  waits = a_wait ∷ [];
}

stop-never_settles_example :
    (v : ResponseWait) × (get_elem?
        (run
          (create no_options)
          (step (create no_options) waiting stops)
          (receives (response_to "m1") ∷ expires 0 ∷ [])).waits
        0
      ≡ some v)
    × (v.settled ≡ none)
unfolding Map.get
stop-never_settles_example =
    stop-never_settles (create no_options) waiting "m1" 0 a_wait
      (receives (response_to "m1") ∷ expires 0 ∷ []) refl refl refl refl

run-resolves_example :
    (v : ResponseWait) × (get_elem?
        (step
          (create no_options)
          (run (create no_options) (create_agent_runtime options) events)
          (expires 0)).waits
        0
      ≡ some v)
    × (is_some v.settled ≡ true)
unfolding run step start dispatch create_agent_runtime create_response_promise consume_graph_context
run-resolves_example = run-resolves (create no_options) options events 0 a_wait refl refl
