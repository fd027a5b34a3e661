-- ===== src/Memory/Graph/Finish.antt =====
-- `finalizeDelegationGraph`, with the depth of the graph, and the two ways to build a graph. The recursion
-- of `depthFrom` is on fuel.
use oacp.Prelude.{
  ℕ, zero, suc, ◌+◌, max, String, Bool, true, false, not, Option, none, some, List, [], ◌∷◌, ◌++◌,
  filter, map, length, or_else, if◌then◌else◌, ◌==◌,
}
use oacp.Js.Map
use oacp.Js.Map.{Map}
use oacp.Js.Set
use oacp.Protocol.Messages.{OacpMessage, trace_id}
use oacp.Memory.Types.{MemoryEntry}
use oacp.Memory.Graph.{
  DelegationNodeKind, response_node, DelegationEdgeKind, responds_to, DelegationNode,
  DelegationEdge, MutableDelegationGraphState, create_state, apply_message, apply_entry,
}

pub record DelegationGraph : Type 0 where
  pub trace_id : String
  pub nodes : List DelegationNode
  pub edges : List DelegationEdge
  pub roots : List String
  pub leaves : List String
  pub depth : ℕ

-- `DELEGATION_PARENT_EDGE_KINDS.has(edge.kind)`
abbrev pub is_parent_kind : DelegationEdgeKind → Bool
is_parent_kind responds_to = false
is_parent_kind _ = true

abbrev pub is_work_kind : DelegationNodeKind → Bool
is_work_kind response_node = false
is_work_kind _ = true

abbrev pub parent_edges : List DelegationEdge → List DelegationEdge
parent_edges = filter (λ e. is_parent_kind e.kind)

abbrev pub work_ids : List DelegationNode → List String
work_ids nodes = map (λ n. n.message_id) (filter (λ n. is_work_kind n.kind) nodes)

abbrev pub targets : List DelegationEdge → List String
targets edges = map (λ e. e.to_message_id) (parent_edges edges)

abbrev pub sources : List DelegationEdge → List String
sources edges = map (λ e. e.from_message_id) (parent_edges edges)

unfoldable pub roots_of : List DelegationNode → List DelegationEdge → List String
roots_of nodes edges = filter (λ id. not (Set.has (targets edges) id)) (work_ids nodes)

unfoldable pub leaves_of : List DelegationNode → List DelegationEdge → List String
leaves_of nodes edges = filter (λ id. not (Set.has (sources edges) id)) (work_ids nodes)

unfoldable pub children_of : Map (List String) → String → List String
children_of m id = or_else (Map.get m id) []

unfoldable pub add_child : Map (List String) → String → String → Map (List String)
add_child m from_id to_id = Map.set m from_id (children_of m from_id ++ to_id ∷ [])

unfoldable pub children_map : Map (List String) → List DelegationEdge → Map (List String)
children_map m [] = m
children_map m (e ∷ es) =
    let skipped : Map (List String) = children_map m es in
    let added : Map (List String) =
      children_map (add_child m e.from_message_id e.to_message_id) es in
    if is_parent_kind e.kind then added else skipped

-- `1 + maxChild`, or 1 where there are no children: the same number, as the maximum of none is 0.

-- The deepest of some nodes, which share what is visited.
unfoldable pub deepest_of :
    (String → Set.Set → Option (ℕ × Set.Set)) → List String → Set.Set → Option (ℕ × Set.Set)
deepest_of depth [] visited = some (0, visited)
deepest_of depth (child ∷ rest) visited = elim (depth child visited) [
  | none ↦ none
  | some (d, after) ↦ elim (deepest_of depth rest after) [
    | none ↦ none
    | some (deepest, last) ↦ some (max d deepest, last)
  ]
]

unfoldable pub one_deeper : Option (ℕ × Set.Set) → Option (ℕ × Set.Set)
one_deeper none = none
one_deeper (some (deepest, visited)) = some (suc deepest, visited)

unfoldable pub depth_from : Map (List String) → ℕ → String → Set.Set → Option (ℕ × Set.Set)
unfolding one_deeper
depth_from children zero node visited = none
depth_from children (suc fuel) node visited = elim (Set.has visited node) [
  | true ↦ some (0, visited)
  | false ↦
      one_deeper
        (deepest_of (depth_from children fuel) (children_of children node) (Set.add visited node))
]

unfoldable pub deepest_root : ℕ → Map (List String) → List String → Option ℕ
deepest_root fuel children [] = some 0
deepest_root fuel children (root ∷ roots) = elim (depth_from children fuel root []) [
  | none ↦ none
  | some (d, visited) ↦ elim (deepest_root fuel children roots) [
    | none ↦ none
    | some deepest ↦ some (max d deepest)
  ]
]

unfoldable pub compute_delegation_depth : ℕ → List String → List DelegationEdge → Option ℕ
compute_delegation_depth fuel roots edges = deepest_root fuel (children_map [] edges) roots

-- One unit of fuel for each edge, and two more, are enough.
unfoldable pub finalize : MutableDelegationGraphState → Option DelegationGraph
finalize s =
    let nodes : List DelegationNode = Map.values s.nodes in
    let roots : List String = roots_of nodes s.edges in
    elim (compute_delegation_depth (length s.edges + 2) roots s.edges) [
      | none ↦ none
      | some depth ↦ some (record {
        trace_id = s.trace_id;
        nodes = nodes;
        edges = s.edges;
        roots = roots;
        leaves = leaves_of nodes s.edges;
        depth = depth;
      })
    ]

unfoldable pub apply_messages :
    MutableDelegationGraphState → List (OacpMessage × Option String) → MutableDelegationGraphState
apply_messages s [] = s
apply_messages s ((m, parent) ∷ ms) = apply_messages (apply_message s m parent) ms

unfoldable pub apply_entries :
    MutableDelegationGraphState → List MemoryEntry → MutableDelegationGraphState
apply_entries s [] = s
apply_entries s (e ∷ es) = apply_entries (apply_entry s e) es

-- Without a first trace id there is no graph.
started :
    String → (MutableDelegationGraphState → MutableDelegationGraphState) → Option DelegationGraph
started t build = if t == "" then none else finalize (build (create_state t))

unfoldable pub build_from_messages : List OacpMessage → Option DelegationGraph
unfolding started
build_from_messages [] = none
build_from_messages (m ∷ ms) =
    started (trace_id m) (λ s. apply_messages s (map (λ n. (n, none)) (m ∷ ms)))

unfoldable pub build_from_memory_entries : List MemoryEntry → Option DelegationGraph
unfolding started
build_from_memory_entries [] = none
build_from_memory_entries (e ∷ es) = started e.trace_id (λ s. apply_entries s (e ∷ es))
