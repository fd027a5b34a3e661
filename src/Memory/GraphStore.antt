-- ===== src/Memory/GraphStore.antt =====
-- core/src/memory/in-memory-delegation-graph-store.ts: the graphs of the traces, under construction.
pub mod Answers
use oacp.Prelude.{
  ℕ, ◌+◌, String, Option, none, some, List, [], ◌∷◌, length, or_else, nat_eq, if◌then◌else◌,
}
use oacp.Js.Map
use oacp.Js.Map.{Map}
use oacp.Protocol.Messages.{OacpMessage, trace_id}
use oacp.Memory.Graph.{DelegationNode, MutableDelegationGraphState, create_state, apply_message}
use oacp.Memory.Graph.Finish.{DelegationGraph, finalize}
use oacp.Memory.Graph.Walk.{ancestors_of, descendants_of}
use oacp.Memory.Graph.Order.{topological_order}

abbrev pub InMemoryDelegationGraphStore : Type 0
InMemoryDelegationGraphStore = Map MutableDelegationGraphState

unfoldable pub state_of : InMemoryDelegationGraphStore → String → MutableDelegationGraphState
state_of traces id = or_else (Map.get traces id) (create_state id)

unfoldable pub record_message :
    InMemoryDelegationGraphStore → OacpMessage → Option String → InMemoryDelegationGraphStore
unfolding state_of
record_message traces message parent =
    let id : String = trace_id message in
    Map.set traces id (apply_message (state_of traces id) message parent)

-- No graph of a trace that is not there or has no nodes.
unfoldable pub get_graph : InMemoryDelegationGraphStore → String → Option DelegationGraph
get_graph traces id = elim (Map.get traces id) [
  | none ↦ none
  | some state ↦ if nat_eq (Map.size state.nodes) 0 then none else finalize state
]

unfoldable pub get_ancestors :
    InMemoryDelegationGraphStore → String → String → Option (List DelegationNode)
get_ancestors traces id message = elim (get_graph traces id) [
  | none ↦ some []
  | some graph ↦ ancestors_of graph message
]

unfoldable pub get_descendants :
    InMemoryDelegationGraphStore → String → String → Option (List DelegationNode)
get_descendants traces id message = elim (get_graph traces id) [
  | none ↦ some []
  | some graph ↦ descendants_of graph message
]

unfoldable pub topological_order_of : InMemoryDelegationGraphStore → String → Option (List String)
topological_order_of traces id = elim (get_graph traces id) [
  | none ↦ some []
  | some graph ↦ topological_order graph
]

abbrev pub clear : InMemoryDelegationGraphStore → InMemoryDelegationGraphStore
clear traces = []
