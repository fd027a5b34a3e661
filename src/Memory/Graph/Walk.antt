-- ===== src/Memory/Graph/Walk.antt =====
-- `getDelegationAncestors` and `getDelegationDescendants` of core/src/memory/delegation-graph-builder.ts.
-- Each loop is on fuel, and `none` is fuel that ran out.
pub mod Paths
pub mod Round
pub mod Progress
pub mod Descendants
pub mod Ancestors
use oacp.Prelude.{
  ℕ, zero, suc, ◌+◌, String, Bool, true, false, not, ◌||◌, Option, none, some, List, [], ◌∷◌, ◌++◌,
  length, find, if◌then◌else◌, ◌==◌,
}
use oacp.Js.Map
use oacp.Js.Map.{Map}
use oacp.Js.Set
use oacp.Memory.Graph.{DelegationNode, DelegationEdge}
use oacp.Memory.Graph.Finish.{DelegationGraph, parent_edges}

-- `new Map(graph.nodes.map((node) => [node.message_id, node]))`
unfoldable pub index_nodes : Map DelegationNode → List DelegationNode → Map DelegationNode
index_nodes m [] = m
index_nodes m (n ∷ nodes) = index_nodes (Map.set m n.message_id n) nodes

abbrev pub by_id : List DelegationNode → Map DelegationNode
by_id nodes = index_nodes [] nodes

-- `if (node) nodes.push(node)`
abbrev pub push_node : List DelegationNode → Option DelegationNode → List DelegationNode
push_node nodes none = nodes
push_node nodes (some n) = nodes ++ n ∷ []

unfoldable pub climb :
    List DelegationEdge
    → Map DelegationNode
    → ℕ
    → String
    → Set.Set
    → List DelegationNode
    → Option (List DelegationNode)
climb edges nodes zero current visited ancestors = none
climb edges nodes (suc fuel) current visited ancestors =
    elim (find (λ e. e.to_message_id == current) edges) [
      | none ↦ some ancestors
      | some edge ↦ elim (Set.has visited edge.from_message_id) [
        | true ↦ some ancestors
        | false ↦
            climb edges nodes fuel edge.from_message_id (Set.add visited edge.from_message_id)
              (push_node ancestors (Map.get nodes edge.from_message_id))
      ]
    ]

unfoldable pub ancestors_of : DelegationGraph → String → Option (List DelegationNode)
ancestors_of graph id =
    climb (parent_edges graph.edges) (by_id graph.nodes) (length graph.edges + 1) id [] []

pub record Descent : Type 0 where
  pub queue : List String
  pub visited : Set.Set
  pub descendants : List DelegationNode

unfoldable pub visit_edge : Map DelegationNode → String → Descent → DelegationEdge → Descent
visit_edge nodes current d edge =
    if not (edge.from_message_id == current) || Set.has d.visited edge.to_message_id
    then d
    else record {
      queue = d.queue ++ edge.to_message_id ∷ [];
      visited = Set.add d.visited edge.to_message_id;
      descendants = push_node d.descendants (Map.get nodes edge.to_message_id);
    }

unfoldable pub visit_edges : Map DelegationNode → String → Descent → List DelegationEdge → Descent
visit_edges nodes current d [] = d
visit_edges nodes current d (e ∷ edges) =
    visit_edges nodes current (visit_edge nodes current d e) edges

-- One round: the empty id is falsy, and its edges are not followed.
unfoldable pub visit_current : List DelegationEdge → Map DelegationNode → String → Descent → Descent
visit_current edges nodes current d = if current == "" then d else visit_edges nodes current d edges

-- `while (queue.length > 0)`
unfoldable pub descend :
    List DelegationEdge → Map DelegationNode → ℕ → Descent → List String → Option Descent
descend edges nodes fuel d [] = some d
descend edges nodes zero d (current ∷ queue) = none
descend edges nodes (suc fuel) d (current ∷ queue) =
    let next : Descent = visit_current edges nodes current (record d { queue = queue }) in
    descend edges nodes fuel next next.queue

abbrev pub start_at : String → Descent
start_at id = record { queue = id ∷ []; visited = id ∷ []; descendants = [] }

unfoldable pub descendants_of : DelegationGraph → String → Option (List DelegationNode)
descendants_of graph id =
    elim (descend (parent_edges graph.edges) (by_id graph.nodes) (length graph.edges + 2)
      (start_at id) (id ∷ [])) [ none ↦ none | some d ↦ some d.descendants ]
