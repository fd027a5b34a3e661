-- ===== src/Memory/Graph/Depth.antt =====
-- The recursion of `depthFrom` of core/src/memory/delegation-graph-builder.ts ends: each step down visits
-- an id that was not visited.
pub mod Unseen
pub mod Steps
use oacp.Prelude.{
  ℕ, zero, suc, ◌+◌, ◌≤◌, ◌<◌, max, String, ◌≡◌, refl, Bool, true, false, Option, some, List, [],
  ◌∷◌, ◌++◌, length, all, or_else, if◌then◌else◌, arith, ◌==◌, eq_iff, eq_refl, Bool-cases, inl,
  inr,
}
use oacp.Js.Map
use oacp.Js.Map.{Map}
use oacp.Js.Set
use oacp.Memory.Graph.{DelegationEdge, MutableDelegationGraphState}
use oacp.Memory.Graph.Finish.{
  DelegationGraph, is_parent_kind, targets, roots_of, leaves_of, children_of, add_child,
  children_map, deepest_of, one_deeper, depth_from, deepest_root, compute_delegation_depth,
  finalize,
}
use oacp.Memory.Graph.Depth.Unseen.{unseen, unseen-length}
use oacp.Memory.Graph.Depth.Steps.{Returned, depth_from-Returned}

all-append :
    (p : String → Bool) (xs ys : List String)
    → all p xs ≡ true
    → all p ys ≡ true
    → all p (xs ++ ys) ≡ true
all-append p [] ys h k = k
all-append p (x ∷ xs) ys h k = ground (arith, h, k, all-append p xs ys)

children_of-add_child :
    (m : Map (List String)) (from to id : String)
    → children_of (add_child m from to) id
      ≡ (if from == id then children_of m from ++ to ∷ [] else children_of m id)
unfolding children_of add_child
children_of-add_child m from to id =
    ground (arith, Map.get-set m from id (or_else (Map.get m from) [] ++ to ∷ []))

children_map-closed :
    (us : List String) (m : Map (List String)) (edges : List DelegationEdge)
    → all (Set.has us) (targets edges) ≡ true
    → ((id : String) → all (Set.has us) (children_of m id) ≡ true)
    → (id : String) → all (Set.has us) (children_of (children_map m edges) id) ≡ true
unfolding children_map
children_map-closed us m [] h closed id = closed id
children_map-closed us m (e ∷ edges) h closed id = elim (Bool-cases (is_parent_kind e.kind)) [
  | inl parent ↦
      let next : (a : String)
          → all (Set.has us) (children_of (add_child m e.from_message_id e.to_message_id) a)
            ≡ true =
        λ a. rw (children_of-add_child m e.from_message_id e.to_message_id a) (
          ground (
            arith,
            closed a,
            closed e.from_message_id,
            all-append (Set.has us) (children_of m e.from_message_id) (e.to_message_id ∷ []),
            parent,
            h,
          )) in
      ground (
        arith,
        parent,
        h,
        children_map-closed us (add_child m e.from_message_id e.to_message_id) edges
            (ground (arith, parent, h)) next id,
      )
  | inr other ↦
      ground (arith, other, h, children_map-closed us m edges (ground (arith, other, h)) closed id)
]

all_of_tail :
    (x : String) (xs ys : List String)
    → all (Set.has xs) ys ≡ true
    → all (Set.has (x ∷ xs)) ys ≡ true
unfolding Set.has
all_of_tail x xs [] h = refl
all_of_tail x xs (y ∷ ys) h = ground (arith, h, all_of_tail x xs ys)

all_of_self : (xs : List String) → all (Set.has xs) xs ≡ true
all_of_self xs = Set.all-of_has (Set.has xs) xs (λ a m. m)

pub length-targets : (edges : List DelegationEdge) → length (targets edges) ≤ length edges
length-targets [] = omega arith
length-targets (e ∷ edges) = ground (arith, length-targets edges)

-- The ids that a walk from a root can visit: itself and the targets.
reach : String → List DelegationEdge → List String
reach root edges = root ∷ targets edges

reach-closed :
    (root : String) (edges : List DelegationEdge) (id : String)
    → all (Set.has (reach root edges)) (children_of (children_map [] edges) id) ≡ true
unfolding reach children_of Map.get
reach-closed root edges =
    children_map-closed (reach root edges) [] edges
      (all_of_tail root (targets edges) (targets edges) (all_of_self (targets edges))) (λ id. refl)

root-reach : (root : String) (edges : List DelegationEdge) → Set.has (reach root edges) root ≡ true
unfolding reach Set.has
root-reach root edges = ground (arith, eq_refl root)

depth_from_root :
    (root : String) (edges : List DelegationEdge)
    → (d : ℕ) × (after : Set.Set) × (depth_from (children_map [] edges) (length edges + 2) root []
        ≡ some (d, after))
      × (d ≤ length edges + 1)
unfolding Returned
depth_from_root root edges =
    let all_unseen : unseen (reach root edges) [] ≤ length edges + 1 =
      unfold reach in
      omega (arith, unseen-length (root ∷ targets edges) [], length-targets edges) in
    let (d, after, e, le) : Returned (reach root edges) []
        (depth_from (children_map [] edges) (length edges + 2) root []) =
      depth_from-Returned (reach root edges) (children_map [] edges) (reach-closed root edges)
        (length edges + 2) root [] (root-reach root edges) (omega (arith, all_unseen)) in
    (d, after, e, omega (arith, le, all_unseen))

deepest_root_lem :
    (fuel : ℕ) (children : Map (List String)) (root : String) (roots : List String) (d deepest : ℕ)
    (after : Set.Set)
    → depth_from children fuel root [] ≡ some (d, after)
    → deepest_root fuel children roots ≡ some deepest
    → deepest_root fuel children (root ∷ roots) ≡ some (max d deepest)
unfolding deepest_root
deepest_root_lem fuel children root roots d deepest after e f =
    rw (e, deepest_root) (rw (f, deepest_root) refl)

-- The depth of a graph is computed, whatever its edges are, cycles included, and is at most one more than
-- the number of the edges.
pub compute_delegation_depth-some :
    (roots : List String) (edges : List DelegationEdge)
    → (d : ℕ) × (compute_delegation_depth (length edges + 2) roots edges ≡ some d)
      × (d ≤ length edges + 1)
unfolding compute_delegation_depth deepest_root
compute_delegation_depth-some [] edges = (0, refl, omega arith)
compute_delegation_depth-some (root ∷ roots) edges =
    let (d, after, e, le) : (d : ℕ) × (after : Set.Set) × (depth_from (children_map [] edges)
            (length edges + 2) root []
          ≡ some (d, after))
        × (d ≤ length edges + 1) =
      depth_from_root root edges in
    let (deepest, f, le2) : (d : ℕ) × (compute_delegation_depth (length edges + 2) roots edges
          ≡ some d)
        × (d ≤ length edges + 1) =
      compute_delegation_depth-some roots edges in
    (
      max d deepest,
      deepest_root_lem (length edges + 2) (children_map [] edges) root roots d deepest after e f,
      omega (arith, le, le2),
    )

finalize_lem :
    (s : MutableDelegationGraphState) (depth : ℕ)
    → compute_delegation_depth (length s.edges + 2) (roots_of (Map.values s.nodes) s.edges) s.edges
      ≡ some depth
    → finalize s
      ≡ some (record {
        trace_id = s.trace_id;
        nodes = Map.values s.nodes;
        edges = s.edges;
        roots = roots_of (Map.values s.nodes) s.edges;
        leaves = leaves_of (Map.values s.nodes) s.edges;
        depth = depth;
      })
unfolding finalize
finalize_lem s depth e = rw (e, finalize) refl

-- Every state has a graph, cycles among its edges included: its nodes are the values and its edges the
-- edges of the state, and its depth is at most one more than the number of the edges.
pub finalize-some :
    (s : MutableDelegationGraphState)
    → (g : DelegationGraph) × (finalize s ≡ some g)
      × (g.nodes ≡ Map.values s.nodes)
      × (g.edges ≡ s.edges)
      × (g.depth ≤ length s.edges + 1)
finalize-some s =
    let (d, e, le) : (d : ℕ) × (compute_delegation_depth (length s.edges + 2)
            (roots_of (Map.values s.nodes) s.edges) s.edges
          ≡ some d)
        × (d ≤ length s.edges + 1) =
      compute_delegation_depth-some (roots_of (Map.values s.nodes) s.edges) s.edges in
    (_, finalize_lem s d e, refl, refl, le)

-- The roots are those of the nodes and the edges.
pub finalize-roots :
    (s : MutableDelegationGraphState)
    → (g : DelegationGraph) × (finalize s ≡ some g)
      × (g.nodes ≡ Map.values s.nodes)
      × (g.edges ≡ s.edges)
      × (g.roots ≡ roots_of g.nodes g.edges)
finalize-roots s =
    let (d, e, le) : (d : ℕ) × (compute_delegation_depth (length s.edges + 2)
            (roots_of (Map.values s.nodes) s.edges) s.edges
          ≡ some d)
        × (d ≤ length s.edges + 1) =
      compute_delegation_depth-some (roots_of (Map.values s.nodes) s.edges) s.edges in
    (_, finalize_lem s d e, refl, refl, refl)
