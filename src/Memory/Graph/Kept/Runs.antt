-- ===== src/Memory/Graph/Kept/Runs.antt =====
-- Messages and entries, one after the other, keep a graph of core/src/memory/delegation-graph-builder.ts.
use oacp.Prelude.{String, ◌≡◌, refl, true, Option, none, some, List, [], ◌∷◌, arith, eq_iff}
use oacp.Js.Map
use oacp.Js.Map.{Map}
use oacp.Js.Set
use oacp.Protocol.Messages.{OacpMessage, task_request, task_response, delegation, capability_query}
use oacp.Workflow.Batches.Counts.{nodup}
use oacp.Memory.Types.{MemoryEntryKind, MemoryEntry}
use oacp.Memory.Graph.{
  DelegationNodeKind, DelegationEdgeKind, DelegationNode, MutableDelegationGraphState, create_state,
  apply_request_node, request_of, delegation_of, response_of, apply_message, truthy,
  apply_delegation_entry, apply_response_entry, apply_entry_with, apply_entry, entry_node,
}
use oacp.Memory.Graph.Finish.{apply_messages, apply_entries, work_ids}
use oacp.Protocol.Json.{text_field}
use oacp.Memory.Graph.Kept.{
  keyed, distinct_edges, IsGraph, link-IsGraph, apply_request_node-IsGraph,
}

apply_message-IsGraph :
    (s : MutableDelegationGraphState) (m : OacpMessage) (parent : Option String)
    → IsGraph s
    → IsGraph (apply_message s m parent)
unfolding apply_message
apply_message-IsGraph s (task_request m) parent g =
    apply_request_node-IsGraph s (request_of m parent) g
apply_message-IsGraph s (delegation m) parent g =
    link-IsGraph s (delegation_of m) m.parent_message_id DelegationEdgeKind.delegates m.to g
apply_message-IsGraph s (task_response m) parent g =
    link-IsGraph s (response_of m) m.in_reply_to DelegationEdgeKind.responds_to (some m.from) g
apply_message-IsGraph s (capability_query m) parent g = g

apply_delegation_entry-IsGraph :
    (s : MutableDelegationGraphState) (e : MemoryEntry) (id : String) (parent : Option String)
    → IsGraph s
    → IsGraph (apply_delegation_entry s e id parent)
unfolding apply_delegation_entry
apply_delegation_entry-IsGraph s e id none g = g
apply_delegation_entry-IsGraph s e id (some parent) g =
    link-IsGraph s _ parent DelegationEdgeKind.delegates _ g

apply_response_entry-IsGraph :
    (s : MutableDelegationGraphState) (e : MemoryEntry) (id : String) (request : Option String)
    → IsGraph s
    → IsGraph (apply_response_entry s e id request)
unfolding apply_response_entry
apply_response_entry-IsGraph s e id none g = g
apply_response_entry-IsGraph s e id (some request) g =
    link-IsGraph s _ request DelegationEdgeKind.responds_to _ g

apply_entry_with-IsGraph :
    (s : MutableDelegationGraphState) (e : MemoryEntry) (id : String)
    → IsGraph s
    → IsGraph (apply_entry_with s e id)
unfolding apply_entry_with
apply_entry_with-IsGraph s e id g =
    elim e.kind
      as (λ k. IsGraph (elim k as (λ x. MutableDelegationGraphState) [
        | MemoryEntryKind.task_request ↦ apply_request_node s (
            entry_node e id DelegationNodeKind.request_node e.capability none
              (text_field e.payload "to") (text_field e.payload "parent_message_id"))
        | MemoryEntryKind.delegation ↦
            apply_delegation_entry s e id (truthy (text_field e.payload "parent_message_id"))
        | MemoryEntryKind.task_response ↦
            apply_response_entry s e id (truthy (text_field e.payload "in_reply_to"))
        | MemoryEntryKind.output ↦
            apply_response_entry s e id (truthy (text_field e.payload "in_reply_to"))
        | MemoryEntryKind.decision ↦ s
      ])) [
        | MemoryEntryKind.task_request ↦ apply_request_node-IsGraph s _ g
        | MemoryEntryKind.delegation ↦ apply_delegation_entry-IsGraph s e id _ g
        | MemoryEntryKind.task_response ↦ apply_response_entry-IsGraph s e id _ g
        | MemoryEntryKind.output ↦ apply_response_entry-IsGraph s e id _ g
        | MemoryEntryKind.decision ↦ g
      ]

apply_entry-IsGraph :
    (s : MutableDelegationGraphState) (e : MemoryEntry) → IsGraph s → IsGraph (apply_entry s e)
unfolding apply_entry
apply_entry-IsGraph s e g =
    elim (truthy e.message_id)
      as (λ o. IsGraph (elim o as (λ x. MutableDelegationGraphState) [
        | none ↦ s
        | some id ↦ apply_entry_with s e id
      ])) [ none ↦ g | some id ↦ apply_entry_with-IsGraph s e id g ]

-- Every message keeps the graph under construction well formed: each node stands under its own id and once,
-- the target of each edge is a node, and no edge is there twice.
pub apply_messages-IsGraph :
    (s : MutableDelegationGraphState) (ms : List (OacpMessage × Option String))
    → IsGraph s
    → IsGraph (apply_messages s ms)
unfolding apply_messages
apply_messages-IsGraph s [] g = g
apply_messages-IsGraph s ((m, parent) ∷ ms) g =
    apply_messages-IsGraph (apply_message s m parent) ms (apply_message-IsGraph s m parent g)

-- So does every memory entry.
pub apply_entries-IsGraph :
    (s : MutableDelegationGraphState) (es : List MemoryEntry)
    → IsGraph s
    → IsGraph (apply_entries s es)
unfolding apply_entries
apply_entries-IsGraph s [] g = g
apply_entries-IsGraph s (e ∷ es) g =
    apply_entries-IsGraph (apply_entry s e) es (apply_entry-IsGraph s e g)

pub create_state-IsGraph : (trace_id : String) → IsGraph (create_state trace_id)
unfolding keyed distinct_edges
create_state-IsGraph trace_id = record {
  keyed_nodes = refl;
  unique_nodes = refl;
  targets_there = refl;
  unique_edges = refl;
}

-- The ids of the work nodes are different.
has-work_ids :
    (m : Map DelegationNode) (x : String)
    → keyed m ≡ true
    → Set.has (work_ids (Map.values m)) x ≡ true
    → Set.has (Map.keys m) x ≡ true
unfolding keyed Set.has
has-work_ids [] x h k = absurd (ground (arith, k))
has-work_ids ((j, n) ∷ m) x h k = ground (arith, h, k, has-work_ids m x, eq_iff n.message_id j)

pub nodup-work_ids :
    (m : Map DelegationNode)
    → keyed m ≡ true
    → nodup (Map.keys m) ≡ true
    → nodup (work_ids (Map.values m)) ≡ true
unfolding keyed Set.has
nodup-work_ids [] h u = refl
nodup-work_ids ((j, n) ∷ m) h u =
    ground (arith, h, u, nodup-work_ids m, has-work_ids m j, eq_iff n.message_id j)
