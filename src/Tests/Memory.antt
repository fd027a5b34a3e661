-- ===== src/Tests/Memory.antt =====
-- The memory theorems at concrete inputs.
use oacp.Prelude.{
  ℕ, ◌+◌, ◌≤◌, String, ◌≡◌, ◌↔◌, ◌⊎◌, refl, true, false, Option, none, some, List, [], ◌∷◌, map,
  length, filter, take, drop, ◌==◌,
}
use mathlib.Core.List.{Perm}
use oacp.Js.Map
use oacp.Js.Set
use oacp.Js.Sort.{sorted}
use oacp.Protocol.Errors.{ok, err}
use oacp.Protocol.Messages.{OacpMessage, task_request, task_response, delegation, DelegationMessage}
use oacp.Workflow.Batches.Counts.{nodup}
use oacp.Memory.Types.{MemoryEntry, MemoryQuery}
use oacp.Memory.Store.{MemoryStore, create, closed_error, matches_query, by_created_at, query}
use oacp.Memory.Store.Laws.{query_pages}
use oacp.Memory.Graph.{MutableDelegationGraphState, create_state}
use oacp.Memory.Graph.Finish.{
  DelegationGraph, finalize, apply_messages, apply_entries, parent_edges,
}
use oacp.Memory.Graph.Replay.{Recorded, recorded_message, entries_of, apply_entries-entries_of}
use oacp.Memory.Graph.Depth.{finalize-some}
use oacp.Memory.Graph.Kept.{IsGraph}
use oacp.Memory.Graph.Kept.Runs.{apply_messages-IsGraph, create_state-IsGraph}
use oacp.Memory.Graph.Kept.Work.{is_work}
use oacp.Memory.Graph.Walk.{by_id, ancestors_of, descendants_of}
use oacp.Memory.Graph.Walk.Descendants.{descendants_of_lem}
use oacp.Memory.Graph.Walk.Paths.{Reaches, nodes_at}
use oacp.Memory.Graph.Walk.Ancestors.{IsChain, ancestors_of_lem}
use oacp.Memory.GraphStore.{state_of, topological_order_of}
use oacp.Memory.GraphStore.Answers.{
  record_all, of_trace, state_of-record_all, topological_order_of-record_all,
}
use oacp.Observability.GraphMessages.{messages_from_delegation_graph}
use oacp.Observability.GraphMessages.Kept.{
  node_with, kept_option, without_parents, messages_from_delegation_graph-kept,
}
use oacp.Tests.Data.{
  collation, a_first-IsTotalPreorder, input, envelope_of, request_of, response_to,
}

abbrev delegated : DelegationMessage
delegated = record {
  envelope = envelope_of "d1" "agent://a";
  parent_message_id = "m1";
  capability = "sum";
  input = input;
  to = some "agent://b";
  reason = none;
}

-- A request, a delegation of it, a request below that, and an answer.
abbrev messages : List (OacpMessage × Option String)
messages =
    (task_request (request_of "m1" none), none)
    ∷ (delegation delegated, none)
    ∷ (task_request (request_of "m2" (some "agent://b")), some "d1")
    ∷ (task_response (response_to "m1"), none)
    ∷ []

abbrev recorded : List Recorded
recorded =
    record {
      message = task_request (request_of "m1" none);
      parent = none;
      id = "e1";
      scope = "workflow.default";
    }
    ∷ record {
      message = task_response (response_to "m1");
      parent = none;
      id = "e2";
      scope = "workflow.default";
    }
    ∷ []

apply_entries-entries_of_example :
    apply_entries (create_state "trace-1") (entries_of recorded)
    ≡ apply_messages (create_state "trace-1") (map recorded_message recorded)
apply_entries-entries_of_example = apply_entries-entries_of (create_state "trace-1") recorded refl

abbrev built : MutableDelegationGraphState
built = apply_messages (create_state "trace-1") messages

finalize-some_example :
    (g : DelegationGraph) × (finalize built ≡ some g)
    × (g.nodes ≡ Map.values built.nodes)
    × (g.edges ≡ built.edges)
    × (g.depth ≤ length built.edges + 1)
finalize-some_example = finalize-some built

apply_messages-IsGraph_example : IsGraph built
apply_messages-IsGraph_example =
    apply_messages-IsGraph (create_state "trace-1") messages (create_state-IsGraph "trace-1")

abbrev graph : DelegationGraph
graph = record {
  trace_id = "trace-1";
  nodes = Map.values built.nodes;
  edges = built.edges;
  roots = "m1" ∷ [];
  leaves = "m2" ∷ [];
  depth = 3;
}

descendants_of_lem_example :
    (found : List String) × (descendants_of graph "m1"
      ≡ some (nodes_at (by_id graph.nodes) found []))
    × ((x : String)
        → (Set.has found x ≡ true)
          ↔ (Reaches (parent_edges graph.edges) "m1" x × (("m1" == x) ≡ false)))
descendants_of_lem_example = descendants_of_lem graph "m1"

ancestors_of_lem_example :
    (chain : List String) × (ancestors_of graph "m2" ≡ some (nodes_at (by_id graph.nodes) chain []))
    × IsChain (parent_edges graph.edges) [] "m2" chain
    × (nodup chain ≡ true)
ancestors_of_lem_example = ancestors_of_lem graph "m2"

messages_from_delegation_graph-kept_example :
    Map.get
      (apply_messages
        (create_state graph.trace_id)
        (without_parents (messages_from_delegation_graph collation graph))).nodes
      "m2"
    ≡ kept_option graph.trace_id (node_with graph.nodes "m2")
unfolding apply_messages oacp.Memory.Graph.apply_message oacp.Memory.Graph.link
    oacp.Memory.Graph.add_edge oacp.Memory.Graph.upsert_node Map.get
    oacp.Memory.Graph.apply_request_node Map.set Set.has
messages_from_delegation_graph-kept_example =
    messages_from_delegation_graph-kept collation graph "m2" refl

state_of-record_all_example :
    state_of (record_all [] messages) "trace-1"
    ≡ apply_messages (state_of [] "trace-1") (of_trace "trace-1" messages)
state_of-record_all_example = state_of-record_all [] messages "trace-1"

topological_order_of-record_all_example :
    (order : List String) × (topological_order_of (record_all [] messages) "trace-1" ≡ some order)
    × (nodup order ≡ true)
    × ((x : String) → Set.has order x ≡ is_work false x (of_trace "trace-1" messages))
topological_order_of-record_all_example = topological_order_of-record_all messages "trace-1"

abbrev stored : MemoryStore
stored = record create { entries = map (λ e. (e.id, e)) (entries_of recorded) }

abbrev of_agent : MemoryQuery
of_agent = record {
  scope = none;
  trace_id = none;
  agent_id = some "agent://c";
  kind = none;
  capability = none;
  since = none;
  until = none;
  limit = none;
  offset = none;
}

query_pages_example :
    (stored.closed ≡ true) × (query collation of_agent stored ≡ err closed_error)
    ⊎ ((entries : List MemoryEntry) × Perm entries
          (filter (matches_query collation of_agent) (Map.values stored.entries))
        × (sorted (by_created_at collation) entries ≡ true)
        × ((limit offset : ℕ)
            → query collation (record of_agent { limit = some limit; offset = some offset }) stored
              ≡ ok (take limit (drop offset entries))))
query_pages_example = query_pages collation of_agent stored a_first-IsTotalPreorder
