-- ===== src/Routing/Bus/Defs.antt =====
-- The state of the bus, and registration.
use oacp.Prelude.{
  ℕ, String, Bool, true, false, Option, none, some, List, [], ◌∷◌, ◌++◌, if◌then◌else◌, or_else,
  is_some, length,
}
use oacp.Js.Map
use oacp.Js.Map.{Map}
use oacp.Js.Set
use oacp.Js.Sort.{sort}
use oacp.Js.Collation.{Collation}
use oacp.Protocol.Messages.{OacpMessage, message_id}
use oacp.Routing.TraceStore.{TraceStore}
use oacp.Routing.TraceStore
use oacp.Routing.CapabilityIndex.{CapabilityIndex, index_agent, unindex_agent}
use oacp.Routing.Router.{CapabilityRoutingMode, first}
use oacp.Routing.Types.{AgentMailbox, AgentRegistration}

-- `settled` lists the promises of `waitForMessage` that have resolved, and `timers` those whose
-- timeout is still set, each with the mailbox that its callback holds.
pub record Bus : Type 0 where
  pub validate_on_send : Bool
  pub record_traces : Bool
  pub capability_routing_mode : CapabilityRoutingMode
  pub registry_agent_uri : String
  pub trace_store : TraceStore
  pub agents : Map AgentRegistration
  pub capability_index : CapabilityIndex
  pub is_open : Bool
  pub mailboxes : List AgentMailbox
  pub next_waiter : ℕ
  pub timers : List (ℕ × ℕ)
  pub settled : List (ℕ × Option OacpMessage)

pub record BusOptions : Type 0 where
  pub validate_on_send : Option Bool
  pub record_traces : Option Bool
  pub max_messages_per_trace : Option ℕ
  pub capability_routing_mode : Option CapabilityRoutingMode
  pub registry_agent_uri : Option String

unfoldable pub create : BusOptions → Bus
create options = record {
  validate_on_send = or_else options.validate_on_send true;
  record_traces = or_else options.record_traces true;
  capability_routing_mode = or_else options.capability_routing_mode first;
  registry_agent_uri = or_else options.registry_agent_uri "agent://registry";
  trace_store = TraceStore.init (or_else options.max_messages_per_trace 1000);
  agents = [];
  capability_index = [];
  is_open = true;
  mailboxes = [];
  next_waiter = 0;
  timers = [];
  settled = [];
}

pub record RegisterOptions : Type 0 where
  pub capabilities : Option (List String)
  pub use_mailbox : Option Bool
  pub replace : Option Bool

abbrev empty_mailbox : AgentMailbox
empty_mailbox = record { queue = []; waiters = [] }

-- A new mailbox at the end of the heap.
unfoldable pub allocate : Bus → Bus
allocate b = record b { mailboxes = b.mailboxes ++ empty_mailbox ∷ [] }

-- Both ways to register end by these two lines.
unfoldable pub put_registration : Bus → String → AgentRegistration → Bus
put_registration b uri r = record b {
  agents = Map.set b.agents uri r;
  capability_index = index_agent b.capability_index uri r.capabilities;
}

unfoldable pub unindex : Bus → String → AgentRegistration → Bus
unindex b uri r = record b {
  capability_index = unindex_agent b.capability_index uri r.capabilities;
}

-- A registration with a mailbox: the one that is there, or a new one.
unfoldable pub with_mailbox : Bus → String → Option ℕ → List String → Option ℕ → Bool → Bus
with_mailbox b uri handler capabilities (some box) wants =
    put_registration b uri (record {
      agent_uri = uri;
      handler = handler;
      capabilities = capabilities;
      mailbox = some box;
    })
with_mailbox b uri handler capabilities none wants =
    if wants
    then put_registration (allocate b) uri (record {
      agent_uri = uri;
      handler = handler;
      capabilities = capabilities;
      mailbox = some (length b.mailboxes);
    })
    else put_registration b uri
        (record { agent_uri = uri; handler = handler; capabilities = capabilities; mailbox = none })

-- `handler !== undefined ? handler : existing.handler`
unfoldable pub merge_handler : Option ℕ → Option ℕ → Option ℕ
merge_handler none existing = existing
merge_handler (some h) existing = some h

unfoldable pub merge_registration :
    Bus → String → AgentRegistration → Option ℕ → RegisterOptions → Bus
unfolding merge_handler
merge_registration b uri existing handler options =
    with_mailbox (unindex b uri existing) uri (merge_handler handler existing.handler)
      (Set.of_list (or_else options.capabilities existing.capabilities)) existing.mailbox
      (or_else options.use_mailbox false)

unfoldable pub register : Bus → String → Option ℕ → RegisterOptions → Bus
register b uri handler options =
    let capabilities : List String = Set.of_list (or_else options.capabilities []) in
    let wants : Bool = or_else options.use_mailbox false in
    elim (Map.get b.agents uri) [
      | none ↦ with_mailbox b uri handler capabilities none wants
      | some existing ↦
          if or_else options.replace false
          then with_mailbox (unindex b uri existing) uri handler capabilities none wants
          else merge_registration b uri existing handler options
    ]

-- The Boolean tells whether the agent was registered.
unfoldable pub unregister : Bus → String → Bus × Bool
unregister b uri = elim (Map.get b.agents uri) [
  | none ↦ (b, false)
  | some r ↦ (record (unindex b uri r) { agents = Map.delete b.agents uri }, true)
]

unfoldable pub close : Bus → Bus
close b = record b { is_open = false }

unfoldable pub open_bus : Bus → Bus
open_bus b = record b { is_open = true }

unfoldable pub clear_traces : Bus → Bus
clear_traces b = record b { trace_store = TraceStore.clear b.trace_store }

-- Idempotent for a message whose id is known.
unfoldable pub replay_trace_message : Bus → OacpMessage → Bus
replay_trace_message b m =
    if b.record_traces
    then (if is_some (TraceStore.get_message_by_id b.trace_store (message_id m))
        then b
        else record b { trace_store = TraceStore.record_message b.trace_store m })
    else b

module _ (c : Collation) where
  pub list_registered_agents : Bus → List String
  list_registered_agents b = sort c.code_unit_le (Map.keys b.agents)

  unfoldable pub find_agents_by_capability : Bus → String → List String
  find_agents_by_capability b capability =
      sort c.code_unit_le (or_else (Map.get b.capability_index capability) [])
