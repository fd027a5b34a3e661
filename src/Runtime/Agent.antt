-- ===== src/Runtime/Agent.antt =====
-- core/src/runtime/agent-runtime.ts: the state of an agent, its lifecycle, and its table of pending
-- responses. A promise of `createResponsePromise` is a place in `waits`, with its timer.
pub mod Events
pub mod Tasks
pub mod Correlation
pub mod Stopped
pub mod Resolves
use oacp.Prelude.{
  ℕ, String, Bool, true, false, not, Option, none, some, List, [], ◌∷◌, ◌++◌, or_else, is_some,
  if◌then◌else◌, length, get_elem?, set, map,
}
use oacp.Js.Map
use oacp.Js.Map.{Map}
use oacp.Protocol.Json.{template}
use oacp.Protocol.Errors.{OacpError, runtime_error, Result, ok, err}
use oacp.Protocol.Errors.Codes.{not_started, already_running, already_stopped}
use oacp.Protocol.Messages.{TaskResponseMessage}
use oacp.Routing.Bus.Defs.{Bus, RegisterOptions, register, unregister}
use oacp.Runtime.Lifecycle.{
  AgentLifecycleState, created, running, stopped, state_text, same_state, can_transition,
}

-- `none` inside `settled` is the promise that resolved to undefined.
pub record ResponseWait : Type 0 where
  pub message_id : String
  pub timer_set : Bool
  pub settled : Option (Option TaskResponseMessage)

-- The handler on the bus and `onTask` are functions of the host; `on_task` tells whether there is one.
pub record AgentRuntimeOptions : Type 0 where
  pub id : String
  pub capabilities : List String
  pub handler : ℕ
  pub on_task : Bool
  pub auto_handle_tasks : Option Bool
  pub use_mailbox : Option Bool
  pub default_response_timeout_ms : Option ℕ
  pub memory_scope : Option String

pub record AgentRuntime : Type 0 where
  pub id : String
  pub capabilities : List String
  pub handler : ℕ
  pub on_task : Bool
  pub auto_handle_tasks : Bool
  pub use_mailbox : Bool
  pub default_response_timeout_ms : ℕ
  pub memory_scope : Option String
  pub state : AgentLifecycleState
  pub pending_responses : Map ℕ
  pub pending_graph_context : Map String
  pub waits : List ResponseWait

unfoldable pub create_agent_runtime : AgentRuntimeOptions → AgentRuntime
create_agent_runtime options =
    let auto_handle : Bool = or_else options.auto_handle_tasks options.on_task in
    record {
      id = options.id;
      capabilities = options.capabilities;
      handler = options.handler;
      on_task = options.on_task;
      auto_handle_tasks = auto_handle;
      use_mailbox = or_else options.use_mailbox (not auto_handle);
      default_response_timeout_ms = or_else options.default_response_timeout_ms 30000;
      memory_scope = options.memory_scope;
      state = created;
      pending_responses = [];
      pending_graph_context = [];
      waits = [];
    }

abbrev pub is_running : AgentRuntime → Bool
is_running a = same_state a.state running

unfoldable pub not_running_error : AgentRuntime → OacpError
not_running_error a =
    runtime_error not_started
      (template ("Agent \"" ∷ a.id ∷ "\" must be started before sending or receiving tasks" ∷ []))
      []

unfoldable pub transition_error : AgentRuntime → AgentLifecycleState → OacpError
transition_error a to =
    if is_running a
    then (if same_state to running
        then runtime_error already_running
            (template ("Agent \"" ∷ a.id ∷ "\" is already running" ∷ [])) []
        else invalid_transition)
    else invalid_transition
  where
    invalid_transition : OacpError
    invalid_transition =
        runtime_error already_stopped
          (template (
            "Invalid lifecycle transition from \""
            ∷ state_text a.state
            ∷ "\" to \""
            ∷ state_text to
            ∷ "\""
            ∷ []))
          []

-- The identity is validated by the host, which answers an error or none.
unfoldable pub start : Option OacpError → AgentRuntime → Bus → Result (AgentRuntime × Bus)
start invalid a bus =
    if can_transition a.state running
    then (elim invalid [
      | some e ↦ err e
      | none ↦ ok (
        record a { state = running },
        register bus a.id (some a.handler) (record {
          capabilities = some a.capabilities;
          use_mailbox = some a.use_mailbox;
          replace = none;
        }),
      )
    ])
    else err (transition_error a running)

-- The promise of a response to a message: its place.
unfoldable pub create_response_promise : String → AgentRuntime → ℕ × AgentRuntime
create_response_promise id a = (
  length a.waits,
  record a {
    pending_responses = Map.set a.pending_responses id (length a.waits);
    waits = a.waits ++ record { message_id = id; timer_set = true; settled = none } ∷ [];
  },
)

-- A promise that resolved stays as it is.
abbrev pub resolved : Option TaskResponseMessage → ResponseWait → ResponseWait
resolved r w = record w { timer_set = false; settled = some (or_else w.settled r) }

abbrev pub cleared : ResponseWait → ResponseWait
cleared w = record w { timer_set = false }

unfoldable pub update_wait :
    (ResponseWait → ResponseWait) → ℕ → List ResponseWait → List ResponseWait
update_wait f k ws = elim (get_elem? ws k) [ none ↦ ws | some w ↦ set ws k (f w) ]

unfoldable pub resolve_pending_response : TaskResponseMessage → AgentRuntime → AgentRuntime
resolve_pending_response response a = elim (Map.get a.pending_responses response.in_reply_to) [
  | none ↦ a
  | some k ↦ record a {
    pending_responses = Map.delete a.pending_responses response.in_reply_to;
    waits = update_wait (resolved (some response)) k a.waits;
  }
]

unfoldable pub cancel_response_wait : String → AgentRuntime → AgentRuntime
cancel_response_wait id a = elim (Map.get a.pending_responses id) [
  | none ↦ a
  | some k ↦ record a {
    pending_responses = Map.delete a.pending_responses id;
    waits = update_wait cleared k a.waits;
  }
]

-- The callback of a timer that is set.
unfoldable pub expire_response : ℕ → AgentRuntime → AgentRuntime
expire_response k a = elim (get_elem? a.waits k) [
  | none ↦ a
  | some w ↦
      if w.timer_set
      then record a {
        pending_responses = Map.delete a.pending_responses w.message_id;
        waits = set a.waits k (resolved none w);
      }
      else a
]

unfoldable pub clear_timers : List ℕ → List ResponseWait → List ResponseWait
clear_timers [] ws = ws
clear_timers (k ∷ ks) ws = clear_timers ks (update_wait cleared k ws)

unfoldable pub clear_pending_responses : AgentRuntime → AgentRuntime
clear_pending_responses a = record a {
  pending_responses = [];
  waits = clear_timers (Map.values a.pending_responses) a.waits;
}

unfoldable pub stop_error : AgentRuntime → OacpError
stop_error a =
    runtime_error not_started (template ("Agent \"" ∷ a.id ∷ "\" is not running" ∷ [])) []

-- An agent that was stopped stays as it is.
unfoldable pub stop : AgentRuntime → Bus → Result (AgentRuntime × Bus)
stop a bus = elim a.state [
  | stopped ↦ ok (a, bus)
  | created ↦ err (stop_error a)
  | running ↦ ok (record (clear_pending_responses a) { state = stopped }, (unregister bus a.id).0)
]
