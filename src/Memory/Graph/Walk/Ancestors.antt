-- ===== src/Memory/Graph/Walk/Ancestors.antt =====
-- `getDelegationAncestors` of core/src/memory/delegation-graph-builder.ts climbs a chain of edges.
use oacp.Prelude.{
  ℕ, zero, suc, ◌+◌, ◌≤◌, ◌<◌, String, ◌≡◌, refl, sym, ap, ◌∙◌, true, false, Option, none, some,
  List, [], ◌∷◌, ◌++◌, length, find, arith, ◌==◌, eq_iff, Bool-cases, Option-cases, inl, inr, map,
  subst, ◌⊎◌,
}
use mathlib.Core.List.{append_assoc, append-nil}
use oacp.Js.Map
use oacp.Js.Map.{Map}
use oacp.Js.Set
use oacp.Workflow.Batches.Counts.{nodup, nodup-concat}
use oacp.Memory.Graph.{DelegationNode, DelegationEdge}
use oacp.Memory.Graph.Finish.{DelegationGraph, parent_edges, sources}
use oacp.Memory.Graph.Depth.Unseen.{unseen, unseen-length, unseen-add_lt}
use oacp.Memory.Graph.Walk.{by_id, push_node, climb, ancestors_of}
use oacp.Memory.Graph.Walk.Paths.{nodes_at, nodes_at-concat}

-- The first of the edges to an id.
abbrev pub edge_to : List DelegationEdge → String → Option DelegationEdge
edge_to edges id = find (λ e. e.to_message_id == id) edges

-- Each id is where the first edge to the one before it comes from. The chain is at its end where no edge goes to its
-- last id, or where the first that does comes from an id that was visited before.
unfoldable pub IsChain : List DelegationEdge → Set.Set → String → List String → Type 0
IsChain edges visited current [] =
    (edge_to edges current ≡ none)
    ⊎ ((e : DelegationEdge) × (edge_to edges current ≡ some e)
        × (Set.has visited e.from_message_id ≡ true))
IsChain edges visited current (p ∷ ps) =
    ((e : DelegationEdge) × (edge_to edges current ≡ some e) × (e.from_message_id ≡ p))
    × IsChain edges (visited ++ p ∷ []) p ps

find-source :
    (edges : List DelegationEdge) (current : String) (e : DelegationEdge)
    → find (λ e. e.to_message_id == current) edges ≡ some e
    → Set.has (map (λ e. e.from_message_id) edges) e.from_message_id ≡ true
unfolding Set.has
find-source [] current e h = absurd (ground (arith, h))
find-source (x ∷ edges) current e h = elim (Bool-cases (x.to_message_id == current)) [
  | inl found ↦
      let same : x ≡ e = ground (arith, h, found) in
      ground (
        arith,
        ap (λ (y : DelegationEdge). y.from_message_id) same,
        eq_iff x.from_message_id e.from_message_id,
      )
  | inr other ↦ ground (arith, find-source edges current e (ground (arith, h, other)))
]

-- What a climb gives, from the ids that it visited before.
Climbed :
    List DelegationEdge
    → Map DelegationNode
    → String
    → Set.Set
    → Option (List DelegationNode)
    → Type 0
Climbed edges nodes current visited r =
    (chain : List String) × (r ≡ some (nodes_at nodes (visited ++ chain) []))
    × IsChain edges visited current chain
    × (nodup (visited ++ chain) ≡ true)

climb-none :
    (edges : List DelegationEdge) (nodes : Map DelegationNode) (fuel : ℕ) (current : String)
    (visited : Set.Set) (ancestors : List DelegationNode)
    → find (λ e. e.to_message_id == current) edges ≡ none
    → climb edges nodes (suc fuel) current visited ancestors ≡ some ancestors
unfolding climb
climb-none edges nodes fuel current visited ancestors h = rw (h, climb) refl

climb-seen :
    (edges : List DelegationEdge) (nodes : Map DelegationNode) (fuel : ℕ) (current : String)
    (visited : Set.Set) (ancestors : List DelegationNode) (e : DelegationEdge)
    → find (λ e. e.to_message_id == current) edges ≡ some e
    → Set.has visited e.from_message_id ≡ true
    → climb edges nodes (suc fuel) current visited ancestors ≡ some ancestors
unfolding climb
climb-seen edges nodes fuel current visited ancestors e h k = rw (h, climb) (rw (k, climb) refl)

climb-fresh :
    (edges : List DelegationEdge) (nodes : Map DelegationNode) (fuel : ℕ) (current : String)
    (visited : Set.Set) (ancestors : List DelegationNode) (e : DelegationEdge)
    → find (λ e. e.to_message_id == current) edges ≡ some e
    → Set.has visited e.from_message_id ≡ false
    → climb edges nodes (suc fuel) current visited ancestors
      ≡ climb edges nodes fuel e.from_message_id
          (visited ++ e.from_message_id ∷ [])
          (push_node ancestors (Map.get nodes e.from_message_id))
unfolding climb Set.add
climb-fresh edges nodes fuel current visited ancestors e h k =
    rw (h, climb) (rw (k, climb) (rw (k, climb) refl))

module _ (edges : List DelegationEdge) (nodes : Map DelegationNode) where
  climb-Climbed :
      (fuel : ℕ) (current : String) (visited : Set.Set)
      → nodup visited ≡ true
      → unseen (map (λ e. e.from_message_id) edges) visited < fuel
      → Climbed edges nodes current visited
          (climb edges nodes fuel current visited (nodes_at nodes visited []))
  unfolding Climbed IsChain
  climb-Climbed zero current visited u lt = absurd (omega (arith, lt))
  climb-Climbed (suc fuel) current visited u lt =
      let done : (r : Option (List DelegationNode))
          → IsChain edges visited current []
          → r ≡ some (nodes_at nodes visited [])
          → Climbed edges nodes current visited r =
        λ r end e. (
          [],
          e ∙ ap (λ l. some (nodes_at nodes l [])) (sym (append-nil visited)),
          end,
          subst (λ l. nodup l ≡ true) (sym (append-nil visited)) u,
        ) in
      elim (Option-cases (find (λ e. e.to_message_id == current) edges)) [
        | inl top ↦
            done _ (inl top)
              (climb-none edges nodes fuel current visited (nodes_at nodes visited []) top)
        | inr (e, h) ↦ elim (Bool-cases (Set.has visited e.from_message_id)) [
          | inl seen ↦
              done _ (inr (e, h, seen))
                (climb-seen edges nodes fuel current visited (nodes_at nodes visited []) e h seen)
          | inr fresh ↦
              let p : String = e.from_message_id in
              let here : Set.has (map (λ e. e.from_message_id) edges) p ≡ true =
                find-source edges current e h in
              let next : Set.Set = visited ++ p ∷ [] in
              let fewer : unseen (map (λ e. e.from_message_id) edges) (Set.add visited p)
                  < unseen (map (λ e. e.from_message_id) edges) visited =
                unseen-add_lt (map (λ e. e.from_message_id) edges) visited p here fresh in
              let same : Set.add visited p ≡ next = unfold Set.add in rw (fresh, Set.add) refl in
              let smaller : unseen (map (λ e. e.from_message_id) edges) next < fuel =
                omega (arith, fewer, lt, ap (unseen (map (λ e. e.from_message_id) edges)) same) in
              let (chain, r, c, d) : Climbed edges nodes p next
                  (climb edges nodes fuel p next (nodes_at nodes next [])) =
                climb-Climbed fuel p next (nodup-concat visited p u fresh) smaller in
              (
                p ∷ chain,
                climb-fresh edges nodes fuel current visited (nodes_at nodes visited []) e h fresh
                    ∙ ap (climb edges nodes fuel p next) (sym (nodes_at-concat nodes visited p []))
                    ∙ r
                    ∙ ap (λ l. some (nodes_at nodes l [])) (append_assoc visited (p ∷ []) chain),
                ((e, h, refl), c),
                subst (λ l. nodup l ≡ true) (append_assoc visited (p ∷ []) chain) d,
              )
        ]
      ]

length-sources : (edges : List DelegationEdge) → length (sources edges) ≤ length edges
length-sources [] = omega arith
length-sources (e ∷ edges) = ground (arith, length-sources edges)

-- The ancestors of an id in any graph, cycles included, are found: they are the nodes of the whole chain of
-- different ids that follows, from the id, the first delegation or subtask edge to each id back to its source, until
-- an id has no such edge or its first one comes from an id that is in the chain already.
pub ancestors_of_lem :
    (graph : DelegationGraph) (id : String)
    → (chain : List String) × (ancestors_of graph id ≡ some (nodes_at (by_id graph.nodes) chain []))
      × IsChain (parent_edges graph.edges) [] id chain
      × (nodup chain ≡ true)
unfolding ancestors_of Climbed nodes_at
ancestors_of_lem graph id =
    climb-Climbed (parent_edges graph.edges) (by_id graph.nodes) (length graph.edges + 1) id [] refl
      (omega (arith, unseen-length (sources graph.edges) [], length-sources graph.edges))
