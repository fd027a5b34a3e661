-- ===== src/Memory/Graph/Order.antt =====
-- `delegationTopologicalOrder` of core/src/memory/delegation-graph-builder.ts. The degrees, and the way a
-- child is released, are those of the batches of a plan: the two loops are the same code.
pub mod Degrees
pub mod Queue
pub mod Prepared
pub mod Listed
use oacp.Prelude.{
  ℕ, zero, suc, ◌+◌, String, Bool, true, false, not, ◌||◌, ◌&&◌, Option, none, some, List, [], ◌∷◌,
  ◌++◌, length, filter, map, if◌then◌else◌, ◌==◌,
}
use oacp.Js.Map
use oacp.Js.Map.{Map}
use oacp.Js.Set
use oacp.Workflow.Batches.{
  Degree, at, Graph, degree, increment, add_edge, children_of, Frontier, release_children,
}
use oacp.Memory.Graph.{DelegationNode, DelegationEdge}
use oacp.Memory.Graph.Finish.{DelegationGraph, is_parent_kind, work_ids}

unfoldable pub zero_degrees : Map Degree → List String → Map Degree
zero_degrees d [] = d
zero_degrees d (id ∷ ids) = zero_degrees (Map.set d id (at 0)) ids

-- An edge between two work nodes counts, and another is skipped.
unfoldable pub add_work_edge : Set.Set → Graph → DelegationEdge → Graph
add_work_edge work g e =
    if is_parent_kind e.kind && (Set.has work e.from_message_id && Set.has work e.to_message_id)
    then add_edge g e.from_message_id e.to_message_id
    else g

unfoldable pub add_work_edges : Set.Set → Graph → List DelegationEdge → Graph
add_work_edges work g [] = g
add_work_edges work g (e ∷ edges) = add_work_edges work (add_work_edge work g e) edges

-- `while (queue.length > 0)` on fuel. The empty id is falsy, and is passed over.
unfoldable pub order_queue :
    Map (List String) → ℕ → Map Degree → List String → List String → Option (List String)
order_queue children fuel d [] order = some order
order_queue children zero d (current ∷ queue) order = none
order_queue children (suc fuel) d (current ∷ queue) order =
    let skipped : Option (List String) = order_queue children fuel d queue order in
    let after : Frontier =
      release_children (record { in_degree = d; next_queue = queue })
        (children_of children current) in
    let taken : Option (List String) =
      order_queue children fuel after.in_degree after.next_queue (order ++ current ∷ []) in
    if current == "" then skipped else taken

-- What the queue did not reach follows, in the order of the nodes.
unfoldable pub add_missing : List String → List String → List String
add_missing order [] = order
add_missing order (id ∷ ids) =
    add_missing (if Set.has order id then order else order ++ id ∷ []) ids

-- A unit of fuel for each root and each work node is enough.
unfoldable pub topological_order : DelegationGraph → Option (List String)
topological_order graph =
    let work : Set.Set = Set.of_list (work_ids graph.nodes) in
    let g : Graph =
      add_work_edges work (record { in_degree = zero_degrees [] work; children = [] })
        graph.edges in
    elim (order_queue g.children (length graph.roots + length work) g.in_degree
      (filter (Set.has work) graph.roots) []) [
        | none ↦ none
        | some order ↦ some (add_missing order work)
      ]
