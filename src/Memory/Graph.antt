-- ===== src/Memory/Graph.antt =====
-- core/src/memory/delegation-graph-builder.ts and delegation-graph-types.ts: the graph of the messages of a
-- trace, built message by message or from memory entries.
pub mod Finish
pub mod Replay
pub mod Depth
pub mod Walk
pub mod Order
pub mod Kept
use oacp.Prelude.{
  ℕ, String, Bool, true, false, not, ◌&&◌, Option, none, some, List, [], ◌∷◌, ◌++◌, any, filter,
  map, or_else, if◌then◌else◌, ◌==◌,
}
use oacp.Js.Map
use oacp.Js.Map.{Map}
use oacp.Js.Set
use oacp.Protocol.Json.{Fields, text_field}
use oacp.Protocol.Messages.{
  OacpMessage, task_request, task_response, delegation, capability_query, TaskRequestMessage,
  TaskResponseMessage, DelegationMessage, TaskStatus,
}
use oacp.Memory.Types.{MemoryEntryKind, MemoryEntry}

pub data DelegationNodeKind : Type 0 where
  request_node delegation_node response_node : DelegationNodeKind

pub data DelegationEdgeKind : Type 0 where
  delegates subtask responds_to : DelegationEdgeKind

abbrev pub same_edge_kind : DelegationEdgeKind → DelegationEdgeKind → Bool
same_edge_kind delegates delegates = true
same_edge_kind subtask subtask = true
same_edge_kind responds_to responds_to = true
same_edge_kind _ _ = false

pub record DelegationNode : Type 0 where
  pub message_id : String
  pub trace_id : String
  pub agent_id : String
  pub kind : DelegationNodeKind
  pub capability : Option String
  pub to : Option String
  pub status : Option TaskStatus
  pub timestamp : Option String
  pub parent_message_id : Option String

pub record DelegationEdge : Type 0 where
  pub from_message_id : String
  pub to_message_id : String
  pub trace_id : String
  pub kind : DelegationEdgeKind
  pub from_agent : String
  pub to_agent : Option String
  pub capability : Option String

pub record MutableDelegationGraphState : Type 0 where
  pub trace_id : String
  pub nodes : Map DelegationNode
  pub edges : List DelegationEdge

abbrev pub create_state : String → MutableDelegationGraphState
create_state trace_id = record { trace_id = trace_id; nodes = []; edges = [] }

-- `a ?? b`
abbrev pub or_other {ℓ} : {A : Type ℓ} → Option A → Option A → Option A
or_other none b = b
or_other (some a) b = some a

unfoldable pub merged : DelegationNode → DelegationNode → DelegationNode
merged existing node = record {
  message_id = existing.message_id;
  trace_id = existing.trace_id;
  agent_id = existing.agent_id;
  kind = node.kind;
  capability = or_other node.capability existing.capability;
  to = or_other node.to existing.to;
  status = or_other node.status existing.status;
  timestamp = or_other node.timestamp existing.timestamp;
  parent_message_id = or_other node.parent_message_id existing.parent_message_id;
}

unfoldable pub upsert_node :
    MutableDelegationGraphState → DelegationNode → MutableDelegationGraphState
unfolding merged
upsert_node s node = elim (Map.get s.nodes node.message_id) [
  | none ↦ record s { nodes = Map.set s.nodes node.message_id node }
  | some existing ↦ record s { nodes = Map.set s.nodes node.message_id (merged existing node) }
]

abbrev pub same_edge : DelegationEdge → DelegationEdge → Bool
same_edge a b =
    a.from_message_id == b.from_message_id
    && a.to_message_id == b.to_message_id
    && same_edge_kind a.kind b.kind

unfoldable pub add_edge : MutableDelegationGraphState → DelegationEdge → MutableDelegationGraphState
add_edge s edge =
    if any (λ existing. same_edge existing edge) s.edges
    then s
    else record s { edges = s.edges ++ edge ∷ [] }

unfoldable pub agent_for_message : MutableDelegationGraphState → String → Option String
agent_for_message s id = elim (Map.get s.nodes id) [ none ↦ none | some n ↦ some n.agent_id ]

-- A node with an edge from its parent; the agent of the parent is read once the node is there.
unfoldable pub link :
    MutableDelegationGraphState
    → DelegationNode
    → String
    → DelegationEdgeKind
    → Option String
    → MutableDelegationGraphState
link s node parent kind to_agent =
    let next : MutableDelegationGraphState = upsert_node s node in
    add_edge next (record {
      from_message_id = parent;
      to_message_id = node.message_id;
      trace_id = node.trace_id;
      kind = kind;
      from_agent = or_else (agent_for_message next parent) node.agent_id;
      to_agent = to_agent;
      capability = node.capability;
    })

-- A request with a parent is linked to it, and one without is only a node.
unfoldable pub apply_request_node :
    MutableDelegationGraphState → DelegationNode → MutableDelegationGraphState
apply_request_node s node = elim node.parent_message_id [
  | none ↦ upsert_node s node
  | some parent ↦ link s node parent subtask node.to
]

unfoldable pub request_of : TaskRequestMessage → Option String → DelegationNode
request_of m parent = record {
  message_id = m.message_id;
  trace_id = m.trace_id;
  agent_id = m.from;
  kind = request_node;
  capability = some m.capability;
  to = m.to;
  status = none;
  timestamp = some m.timestamp;
  parent_message_id = parent;
}

unfoldable pub delegation_of : DelegationMessage → DelegationNode
delegation_of m = record {
  message_id = m.message_id;
  trace_id = m.trace_id;
  agent_id = m.from;
  kind = delegation_node;
  capability = some m.capability;
  to = m.to;
  status = none;
  timestamp = some m.timestamp;
  parent_message_id = some m.parent_message_id;
}

unfoldable pub response_of : TaskResponseMessage → DelegationNode
response_of m = record {
  message_id = m.message_id;
  trace_id = m.trace_id;
  agent_id = m.from;
  kind = response_node;
  capability = none;
  to = none;
  status = some m.status;
  timestamp = some m.timestamp;
  parent_message_id = some m.in_reply_to;
}

unfoldable pub apply_message :
    MutableDelegationGraphState → OacpMessage → Option String → MutableDelegationGraphState
unfolding request_of delegation_of response_of
apply_message s (task_request m) parent = apply_request_node s (request_of m parent)
apply_message s (delegation m) parent = link s (delegation_of m) m.parent_message_id delegates m.to
apply_message s (task_response m) parent =
    link s (response_of m) m.in_reply_to responds_to (some m.from)
apply_message s (capability_query m) parent = s

-- The node of an entry; the parent is among the payload.
abbrev pub entry_node :
    MemoryEntry
    → String
    → DelegationNodeKind
    → Option String
    → Option TaskStatus
    → Option String
    → Option String
    → DelegationNode
entry_node e id kind capability status to parent = record {
  message_id = id;
  trace_id = e.trace_id;
  agent_id = e.agent_id;
  kind = kind;
  capability = capability;
  to = to;
  status = status;
  timestamp = some e.created_at;
  parent_message_id = parent;
}

-- An absent text and the empty one are falsy.
abbrev pub truthy : Option String → Option String
truthy none = none
truthy (some s) = if s == "" then none else some s

unfoldable pub apply_delegation_entry :
    MutableDelegationGraphState → MemoryEntry → String → Option String → MutableDelegationGraphState
apply_delegation_entry s e id none = s
apply_delegation_entry s e id (some parent) =
    let to : Option String = text_field e.payload "to" in
    link s (entry_node e id delegation_node e.capability none to (some parent)) parent delegates to

unfoldable pub apply_response_entry :
    MutableDelegationGraphState → MemoryEntry → String → Option String → MutableDelegationGraphState
apply_response_entry s e id none = s
apply_response_entry s e id (some request) =
    link s (entry_node e id response_node none e.status none (some request)) request responds_to
      (some e.agent_id)

unfoldable pub apply_entry_with :
    MutableDelegationGraphState → MemoryEntry → String → MutableDelegationGraphState
apply_entry_with s e id = elim e.kind [
  | MemoryEntryKind.task_request ↦ apply_request_node s (
      entry_node e id request_node e.capability none (text_field e.payload "to")
        (text_field e.payload "parent_message_id"))
  | MemoryEntryKind.delegation ↦
      apply_delegation_entry s e id (truthy (text_field e.payload "parent_message_id"))
  | MemoryEntryKind.task_response ↦
      apply_response_entry s e id (truthy (text_field e.payload "in_reply_to"))
  | MemoryEntryKind.output ↦
      apply_response_entry s e id (truthy (text_field e.payload "in_reply_to"))
  | MemoryEntryKind.decision ↦ s
]

-- An entry without a message id is left out.
unfoldable pub apply_entry : MutableDelegationGraphState → MemoryEntry → MutableDelegationGraphState
apply_entry s e = elim (truthy e.message_id) [ none ↦ s | some id ↦ apply_entry_with s e id ]
