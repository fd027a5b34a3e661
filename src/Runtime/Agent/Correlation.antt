-- ===== src/Runtime/Agent/Correlation.antt =====
-- Each promise of core/src/runtime/agent-runtime.ts resolves to a response to its own request.
pub mod Waits
pub mod Table
use oacp.Prelude.{
  ℕ, zero, suc, String, ◌≡◌, refl, sym, ap, ◌∙◌, Bool, true, false, Option, none, some, List, [],
  ◌∷◌, ◌++◌, or_else, map, length, get_elem?, set, arith, ◌==◌, eq_iff, Bool-cases, Option-cases,
  inl, inr, All, All-set, All-append, All-get, if◌then◌else◌, subst,
}
use oacp.Js.Map
use oacp.Js.Map.{Map}
use oacp.Protocol.Errors.{OacpError, Result, ok, err}
use oacp.Protocol.Messages.{TaskResponseMessage}
use oacp.Routing.Bus.Defs.{Bus, unregister}
use oacp.Resilience.Send.{SendTaskParams}
use oacp.Runtime.MessageFactory.{Fresh}
use oacp.Runtime.Lifecycle.{created, running, stopped, can_transition}
use oacp.Runtime.Agent.{
  ResponseWait, AgentRuntimeOptions, AgentRuntime, create_agent_runtime, is_running, start,
  create_response_promise, resolved, cleared, update_wait, resolve_pending_response,
  cancel_response_wait, expire_response, clear_timers, clear_pending_responses, stop, stop_error,
}
use oacp.Runtime.Agent.Tasks.{
  dispatch, promise_for, put_graph_context, undo_dispatch, consume_graph_context,
}
use oacp.Runtime.Agent.Events.{
  AgentEvent, starts, stops, dispatches, undoes, persists, receives, expires, step, run,
  agent_after,
}
use oacp.Runtime.Agent.Correlation.Waits.{
  IsAnswered, IsCorrelated, update_wait-answered, cleared-IsAnswered,
}
use oacp.Runtime.Agent.Correlation.Table.{
  set-Correlated, of_pair, to_pair, resolve_pending_response-IsCorrelated,
  cancel_response_wait-IsCorrelated, expire_response-IsCorrelated,
}

clear_timers-answered :
    (ks : List ℕ) (ws : List ResponseWait) → All IsAnswered ws → All IsAnswered (clear_timers ks ws)
unfolding clear_timers
clear_timers-answered [] ws v = v
clear_timers-answered (k ∷ ks) ws v =
    clear_timers-answered ks (update_wait cleared k ws)
      (update_wait-answered cleared k ws (λ w at h. cleared-IsAnswered w h) v)

stop-IsCorrelated :
    (bus : Bus) (a : AgentRuntime) → IsCorrelated a → IsCorrelated (step bus a stops)
unfolding step stop clear_pending_responses Map.get
stop-IsCorrelated bus a c =
    elim a.state
      as (λ s. IsCorrelated (
        agent_after a (elim s as (λ x. Result (AgentRuntime × Bus)) [
          | stopped ↦ ok (a, bus)
          | created ↦ err (stop_error a)
          | running ↦
              ok (record (clear_pending_responses a) { state = stopped }, (unregister bus a.id).0)
        ]))) [
          | stopped ↦ c
          | created ↦ c
          | running ↦ record {
            tracked = λ id k h. absurd (ground (arith, h));
            answered = clear_timers-answered (Map.values a.pending_responses) a.waits c.answered;
          }
        ]

start-IsCorrelated :
    (bus : Bus) (a : AgentRuntime) (invalid : Option OacpError)
    → IsCorrelated a
    → IsCorrelated (step bus a (starts invalid))
unfolding step start
start-IsCorrelated bus a none c = elim (Bool-cases (can_transition a.state running)) [
  | inl yes_it ↦ rw (yes_it, start) (of_pair _ (to_pair a c))
  | inr no_it ↦ rw (no_it, start) c
]
start-IsCorrelated bus a (some e) c = elim (Bool-cases (can_transition a.state running)) [
  | inl yes_it ↦ rw (yes_it, start) c
  | inr no_it ↦ rw (no_it, start) c
]

put_graph_context-IsCorrelated :
    (id : String) (parent : Option String) (a : AgentRuntime)
    → IsCorrelated a
    → IsCorrelated (put_graph_context id parent a)
put_graph_context-IsCorrelated id none a c = c
put_graph_context-IsCorrelated id (some p) a c = of_pair _ (to_pair a c)

promise_for-IsCorrelated :
    (wanted : Bool) (id : String) (a : AgentRuntime)
    → IsCorrelated a
    → IsCorrelated (promise_for wanted id a).1
unfolding create_response_promise
promise_for-IsCorrelated false id a c = c
promise_for-IsCorrelated true id a c =
    of_pair _ (set-Correlated a.pending_responses id a.waits (to_pair a c))

dispatch-IsCorrelated :
    (bus : Bus) (fresh : Fresh) (p : SendTaskParams) (a : AgentRuntime)
    → IsCorrelated a
    → IsCorrelated (step bus a (dispatches fresh p))
unfolding step dispatch
dispatch-IsCorrelated bus fresh p a c = elim (Bool-cases (is_running a)) [
  | inl yes_it ↦
      rw (yes_it, dispatch)
        (put_graph_context-IsCorrelated fresh.message_id p.parent_message_id _
          (promise_for-IsCorrelated (or_else p.wait_for_response true) fresh.message_id a c))
  | inr no_it ↦ rw (no_it, dispatch) c
]

undo_dispatch-IsCorrelated :
    (id : String) (waits : Bool) (a : AgentRuntime)
    → IsCorrelated a
    → IsCorrelated (undo_dispatch id waits a)
unfolding undo_dispatch
undo_dispatch-IsCorrelated id false a c = of_pair _ (to_pair a c)
undo_dispatch-IsCorrelated id true a c =
    cancel_response_wait-IsCorrelated id _ (of_pair _ (to_pair a c))

step-IsCorrelated :
    (bus : Bus) (a : AgentRuntime) (e : AgentEvent) → IsCorrelated a → IsCorrelated (step bus a e)
unfolding step consume_graph_context
step-IsCorrelated bus a (starts invalid) c = start-IsCorrelated bus a invalid c
step-IsCorrelated bus a stops c = stop-IsCorrelated bus a c
step-IsCorrelated bus a (dispatches fresh p) c = dispatch-IsCorrelated bus fresh p a c
step-IsCorrelated bus a (undoes id waits) c = undo_dispatch-IsCorrelated id waits a c
step-IsCorrelated bus a (persists id) c = of_pair _ (to_pair a c)
step-IsCorrelated bus a (receives m) c = resolve_pending_response-IsCorrelated m a c
step-IsCorrelated bus a (expires k) c = expire_response-IsCorrelated k a c

run-IsCorrelated :
    (bus : Bus) (a : AgentRuntime) (es : List AgentEvent)
    → IsCorrelated a
    → IsCorrelated (run bus a es)
unfolding run
run-IsCorrelated bus a [] c = c
run-IsCorrelated bus a (e ∷ es) c =
    run-IsCorrelated bus (step bus a e) es (step-IsCorrelated bus a e c)

-- After any events, in any order, the table of a new agent leads from the id of a request to the promise of
-- its response only, and a promise that resolved to a response holds one to its own request.
pub run-create-IsCorrelated :
    (bus : Bus) (options : AgentRuntimeOptions) (es : List AgentEvent)
    → IsCorrelated (run bus (create_agent_runtime options) es)
unfolding create_agent_runtime Map.get
run-create-IsCorrelated bus options es =
    run-IsCorrelated bus (create_agent_runtime options) es
      (record { tracked = λ id k h. absurd (ground (arith, h)); answered = record {} })
