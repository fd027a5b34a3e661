-- ===== src/Memory/Graph/Walk/Descendants.antt =====
-- `getDelegationDescendants` of core/src/memory/delegation-graph-builder.ts finds what the edges reach.
use oacp.Prelude.{
  ℕ, zero, suc, ◌+◌, ◌≤◌, String, ◌≡◌, refl, ap, ◌↔◌, true, false, ◌||◌, Option, some, List, [],
  ◌∷◌, length, all, arith, ◌==◌, eq_iff, eq_refl, map, subst,
}
use oacp.Js.Map.{Map}
use oacp.Js.Set
use oacp.Js.Set.{has-add, has-append}
use oacp.Memory.Graph.{DelegationNode, DelegationEdge}
use oacp.Memory.Graph.Finish.{DelegationGraph, parent_edges, targets}
use oacp.Memory.Graph.Depth.{length-targets}
use oacp.Memory.Graph.Depth.Unseen.{unseen, unseen-length}
use oacp.Memory.Graph.Walk.{by_id, Descent, visit_current, descend, start_at, descendants_of}
use oacp.Memory.Graph.Walk.Paths.{Reaches, here, over, nodes_at}
use oacp.Memory.Graph.Walk.Round.{Queued}
use oacp.Memory.Graph.Walk.Progress.{
  Found, Found-queue, Followed, visit_current-Followed, visit_current-Found, visit_current-measure,
}

-- The queue holds visited ids.
Waits : Descent → Type 0
Waits d = (x : String) → Set.has d.queue x ≡ true → Set.has d.visited x ≡ true

-- The loop ends where all edges from what was visited were followed.
Ended : List DelegationEdge → Map DelegationNode → String → Option Descent → Type 0
Ended edges nodes id r =
    (last : Descent) × (r ≡ some last)
    × Found edges nodes id last
    × Followed edges last
    × (last.queue ≡ [])

descend-Ended :
    (us : List String) (edges : List DelegationEdge) (nodes : Map DelegationNode) (id : String)
    (fuel : ℕ) (d : Descent) (queue : List String)
    → all (λ e. Set.has us e.to_message_id) edges ≡ true
    → d.queue ≡ queue
    → length queue + unseen us d.visited ≤ fuel
    → Waits d
    → Found edges nodes id d
    → Followed edges d
    → Ended edges nodes id (descend edges nodes fuel d queue)
unfolding descend Ended Waits
descend-Ended us edges nodes id fuel d [] m e le w f g = (d, refl, f, g, e)
descend-Ended us edges nodes id zero d (current ∷ queue) m e le w f g = absurd (omega (arith, le))
descend-Ended us edges nodes id (suc fuel) d (current ∷ queue) m e le w f g =
    let popped : Descent = record d { queue = queue } in
    let next : Descent = visit_current edges nodes current popped in
    let q : Queued us popped next = visit_current-measure us edges nodes current popped m in
    let now : Set.has d.visited current ≡ true =
      w current
        (unfold Set.has in ground (arith, ap (λ l. Set.has l current) e, eq_refl current)) in
    let stays : (x : String) → Set.has queue x ≡ true → Set.has d.visited x ≡ true =
      λ x h. w x (unfold Set.has in ground (arith, ap (λ l. Set.has l x) e, h)) in
    descend-Ended us edges nodes id fuel next next.queue m refl (omega (arith, q.measure, le))
      (λ x h. ground (arith, h, q.queued x, q.grows x, stays x))
      (visit_current-Found edges nodes id current popped (f.reached current now)
        (Found-queue edges nodes id d queue f))
      (visit_current-Followed us edges nodes current queue d m e g)

targets-all :
    (us : List String) (edges : List DelegationEdge)
    → all (Set.has us) (targets edges) ≡ true
    → all (λ e. Set.has us e.to_message_id) (parent_edges edges) ≡ true
targets-all us edges h = go (parent_edges edges) h
  where
    go :
        (es : List DelegationEdge)
        → all (Set.has us) (map (λ e. e.to_message_id) es) ≡ true
        → all (λ e. Set.has us e.to_message_id) es ≡ true
    go [] h = refl
    go (e ∷ es) h = ground (arith, h, go es (ground (arith, h)))

-- In a walk that ended, what is reached was visited.
Reaches-visited :
    (edges : List DelegationEdge) (id x : String) (d : Descent)
    → Set.has d.visited id ≡ true
    → d.queue ≡ []
    → Followed edges d
    → Reaches edges id x
    → Set.has d.visited x ≡ true
unfolding Followed Set.has
Reaches-visited edges id _ d s e f here = s
Reaches-visited edges id _ d s e f (over b c r n t) =
    f b c t (Reaches-visited edges id b d s e f r) n (ground (arith, ap (λ l. Set.has l b) e))

start-Found :
    (edges : List DelegationEdge) (nodes : Map DelegationNode) (id : String)
    → Found edges nodes id (start_at id)
unfolding Set.has nodes_at
start-Found edges nodes id = record {
  found = [];
  visited = refl;
  descendants = refl;
  fresh = refl;
  reached = λ x h. subst (Reaches edges id) (ground (arith, eq_iff id x, h)) here;
}

walk_down :
    (graph : DelegationGraph) (id : String)
    → Ended (parent_edges graph.edges) (by_id graph.nodes) id (
        descend
          (parent_edges graph.edges)
          (by_id graph.nodes)
          (length graph.edges + 2)
          (start_at id)
          (id ∷ []))
unfolding Waits Followed Set.has
walk_down graph id =
    let us : List String = targets graph.edges in
    let m : all (λ e. Set.has (targets graph.edges) e.to_message_id) (parent_edges graph.edges)
        ≡ true =
      targets-all (targets graph.edges) graph.edges
        (Set.all-of_has (Set.has (targets graph.edges)) (targets graph.edges) (λ a h. h)) in
    descend-Ended (targets graph.edges) (parent_edges graph.edges) (by_id graph.nodes) id
      (length graph.edges + 2) (start_at id) (id ∷ []) m refl
      (omega (arith, unseen-length (targets graph.edges) (id ∷ []), length-targets graph.edges))
      (λ x h. h) (start-Found (parent_edges graph.edges) (by_id graph.nodes) id)
      (λ a b s v n q. absurd (ground (arith, v, q)))

-- The descendants of an id in any graph, cycles included, are found: they are the nodes of some ids, which
-- are exactly the ids other than it that are reached from it over delegation and subtask edges whose starts
-- are not the empty id.
pub descendants_of_lem :
    (graph : DelegationGraph) (id : String)
    → (found : List String) × (descendants_of graph id
        ≡ some (nodes_at (by_id graph.nodes) found []))
      × ((x : String)
          → (Set.has found x ≡ true)
            ↔ (Reaches (parent_edges graph.edges) id x × ((id == x) ≡ false)))
unfolding descendants_of Ended
descendants_of_lem graph id =
    let edges : List DelegationEdge = parent_edges graph.edges in
    let (last, e, f, g, q) : Ended (parent_edges graph.edges) (by_id graph.nodes) id (
        descend (parent_edges graph.edges) (by_id graph.nodes) (length graph.edges + 2)
          (start_at id) (id ∷ [])) =
      walk_down graph id in
    let seen : (x : String) → Set.has last.visited x ≡ (id == x || Set.has f.found x) =
      λ x. unfold Set.has in ap (λ v. Set.has v x) f.visited in
    (
      f.found,
      rw (e, descendants_of) (ap some f.descendants),
      λ x. (
        (λ h. (f.reached x (ground (arith, seen x, h)), ground (arith, eq_iff id x, f.fresh, h))),
        (λ (r, n). ground (
          arith,
          seen x,
          n,
          Reaches-visited edges id x last (ground (arith, seen id, eq_refl id)) q g r,
        )),
      ),
    )
