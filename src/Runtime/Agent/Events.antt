-- ===== src/Runtime/Agent/Events.antt =====
-- What happens to an agent of core/src/runtime/agent-runtime.ts, one event after the other.
use oacp.Prelude.{ℕ, String, Bool, Option, List, [], ◌∷◌}
use oacp.Protocol.Errors.{OacpError, Result, ok, err}
use oacp.Protocol.Messages.{TaskResponseMessage}
use oacp.Routing.Bus.Defs.{Bus}
use oacp.Resilience.Send.{SendTaskParams}
use oacp.Runtime.MessageFactory.{Fresh}
use oacp.Runtime.Agent.{AgentRuntime, start, stop, resolve_pending_response, expire_response}
use oacp.Runtime.Agent.Tasks.{Dispatch, dispatch, undo_dispatch, consume_graph_context}

-- Tasks that run at once interleave at their awaits, in any order.
pub data AgentEvent : Type 0 where
  starts : Option OacpError → AgentEvent
  stops : AgentEvent
  dispatches : Fresh → SendTaskParams → AgentEvent
  undoes : String → Bool → AgentEvent
  persists : String → AgentEvent
  receives : TaskResponseMessage → AgentEvent
  expires : ℕ → AgentEvent

-- An error leaves the agent as it was.
abbrev pub agent_after : AgentRuntime → Result (AgentRuntime × Bus) → AgentRuntime
agent_after a (ok (next, bus)) = next
agent_after a (err e) = a

abbrev pub after_dispatch : AgentRuntime → Result (Dispatch × AgentRuntime) → AgentRuntime
after_dispatch a (ok (d, next)) = next
after_dispatch a (err e) = a

unfoldable pub step : Bus → AgentRuntime → AgentEvent → AgentRuntime
step bus a (starts invalid) = agent_after a (start invalid a bus)
step bus a stops = agent_after a (stop a bus)
step bus a (dispatches fresh p) = after_dispatch a (dispatch fresh p a)
step bus a (undoes id waits) = undo_dispatch id waits a
step bus a (persists id) = (consume_graph_context id a).1
step bus a (receives m) = resolve_pending_response m a
step bus a (expires k) = expire_response k a

unfoldable pub run : Bus → AgentRuntime → List AgentEvent → AgentRuntime
run bus a [] = a
run bus a (e ∷ es) = run bus (step bus a e) es
