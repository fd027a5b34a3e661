-- ===== src/Memory/Graph/Walk/Progress.antt =====
-- What the search for descendants of core/src/memory/delegation-graph-builder.ts has found so far.
use oacp.Prelude.{
  String, ◌≡◌, refl, ap, true, false, not, ◌||◌, List, [], ◌∷◌, ◌++◌, all, arith, ◌==◌, eq_iff,
  eq_refl, Bool-cases, inl, inr, subst,
}
use oacp.Js.Map.{Map}
use oacp.Js.Set
use oacp.Js.Set.{has-add, has-append}
use oacp.Memory.Graph.{DelegationNode, DelegationEdge}
use oacp.Memory.Graph.Walk.{Descent, visit_edge, visit_edges, visit_current}
use oacp.Memory.Graph.Walk.Paths.{step, Reaches, over, nodes_at, nodes_at-concat}
use oacp.Memory.Graph.Walk.Round.{visit_edges-visited, Queued, Queued-refl, visit_edges-Queued}

-- What was found so far: the visited ids but the first, their nodes, and a path to each.
pub record Found (edges : List DelegationEdge) (nodes : Map DelegationNode) (id : String)
    (d : Descent) : Type 0 where
  pub found : List String
  pub visited : d.visited ≡ id ∷ found
  pub descendants : d.descendants ≡ nodes_at nodes found []
  pub fresh : Set.has found id ≡ false
  pub reached : (x : String) → Set.has d.visited x ≡ true → Reaches edges id x

pub Found-queue :
    (edges : List DelegationEdge) (nodes : Map DelegationNode) (id : String) (d : Descent)
    (q : List String)
    → Found edges nodes id d
    → Found edges nodes id (record d { queue = q })
Found-queue edges nodes id d q f = record {
  found = f.found;
  visited = f.visited;
  descendants = f.descendants;
  fresh = f.fresh;
  reached = f.reached;
}

add_found :
    (id x : String) (found visited : List String)
    → visited ≡ id ∷ found
    → Set.has visited x ≡ false
    → Set.add visited x ≡ id ∷ (found ++ x ∷ [])
unfolding Set.add
add_found id x found visited e h = rw (h, Set.add) (rw e refl)

visit_edge-Found :
    (edges : List DelegationEdge) (nodes : Map DelegationNode) (id current : String) (d : Descent)
    (e : DelegationEdge)
    → Reaches edges id current
    → (current == "") ≡ false
    → ((e.from_message_id == current) ≡ true → step edges current e.to_message_id ≡ true)
    → Found edges nodes id d
    → Found edges nodes id (visit_edge nodes current d e)
unfolding visit_edge
visit_edge-Found edges nodes id current d e r k m f =
    elim (Bool-cases (not (e.from_message_id == current) || Set.has d.visited e.to_message_id)) [
      | inl skip ↦ rw (skip, visit_edge) f
      | inr go ↦
          let t : String = e.to_message_id in
          let unvisited : Set.has d.visited e.to_message_id ≡ false = ground (arith, go) in
          let other : (id == e.to_message_id) ≡ false =
            unfold Set.has in
            ground (
              arith,
              unvisited,
              ap (λ v. Set.has v e.to_message_id) f.visited,
              eq_iff id e.to_message_id,
            ) in
          let reached : Reaches edges id e.to_message_id =
            over current e.to_message_id r k (m (ground (arith, go))) in
          rw (go, visit_edge)
            (record {
              found = f.found ++ e.to_message_id ∷ [];
              visited = add_found id e.to_message_id f.found d.visited f.visited unvisited;
              descendants =
                  rw (nodes_at-concat nodes f.found e.to_message_id [], f.descendants) refl;
              fresh =
                  unfold Set.has in
                  ground (
                    arith,
                    has-append f.found (e.to_message_id ∷ []) id,
                    f.fresh,
                    other,
                    eq_iff e.to_message_id id,
                    eq_iff id e.to_message_id,
                  );
              reached = λ x h. elim (Bool-cases (e.to_message_id == x)) [
                | inl same ↦
                    subst (Reaches edges id) (ground (arith, eq_iff e.to_message_id x, same))
                      reached
                | inr differs ↦
                    f.reached x (ground (arith, has-add d.visited e.to_message_id x, differs, h))
              ];
            })
    ]

visit_edges-Found :
    (edges : List DelegationEdge) (nodes : Map DelegationNode) (id current : String) (d : Descent)
    (es : List DelegationEdge)
    → Reaches edges id current
    → (current == "") ≡ false
    → ((x : String) → step es current x ≡ true → step edges current x ≡ true)
    → Found edges nodes id d
    → Found edges nodes id (visit_edges nodes current d es)
unfolding visit_edges step
visit_edges-Found edges nodes id current d [] r k m f = f
visit_edges-Found edges nodes id current d (e ∷ es) r k m f =
    visit_edges-Found edges nodes id current (visit_edge nodes current d e) es r k
      (λ x h. m x (ground (arith, h)))
      (visit_edge-Found edges nodes id current d e r k
        (λ h. m e.to_message_id (ground (arith, h, eq_refl e.to_message_id))) f)

-- Every edge from a visited id that is not queued was followed.
unfoldable pub Followed : List DelegationEdge → Descent → Type 0
Followed edges d =
    (a b : String)
    → step edges a b ≡ true
    → Set.has d.visited a ≡ true
    → (a == "") ≡ false
    → Set.has d.queue a ≡ false
    → Set.has d.visited b ≡ true

pub visit_current-Followed :
    (us : List String) (edges : List DelegationEdge) (nodes : Map DelegationNode) (current : String)
    (queue : List String) (d : Descent)
    → all (λ e. Set.has us e.to_message_id) edges ≡ true
    → d.queue ≡ current ∷ queue
    → Followed edges d
    → Followed edges (visit_current edges nodes current (record d { queue = queue }))
unfolding visit_current Followed Set.has
visit_current-Followed us edges nodes current queue d m e f = elim (Bool-cases (current == "")) [
  | inl empty ↦
      rw (empty, visit_current)
        (λ a b s v n q. f a b s v n (
          ground (
            arith,
            ap (λ l. Set.has l a) e,
            eq_iff current a,
            eq_iff current "",
            eq_iff a "",
            n,
            q,
            empty,
          )))
  | inr other ↦
      let next : Queued us (record d { queue = queue })
          (visit_edges nodes current (record d { queue = queue }) edges) =
        visit_edges-Queued us nodes current (record d { queue = queue }) edges m in
      let seen : (x : String)
          → Set.has (visit_edges nodes current (record d { queue = queue }) edges).visited x
            ≡ (Set.has d.visited x || step edges current x) =
        visit_edges-visited nodes current (record d { queue = queue }) edges in
      rw (other, visit_current)
        (λ a b s v n q. ground (
          arith,
          f a b s,
          n,
          next.queued a,
          seen b,
          seen a,
          v,
          q,
          eq_iff current a,
          ap (λ l. Set.has l a) e,
          s,
        ))
]

pub visit_current-Found :
    (edges : List DelegationEdge) (nodes : Map DelegationNode) (id current : String) (d : Descent)
    → Reaches edges id current
    → Found edges nodes id d
    → Found edges nodes id (visit_current edges nodes current d)
unfolding visit_current
visit_current-Found edges nodes id current d r f = elim (Bool-cases (current == "")) [
  | inl empty ↦ rw (empty, visit_current) f
  | inr other ↦
      rw (other, visit_current)
        (visit_edges-Found edges nodes id current d edges r other (λ x h. h) f)
]

pub visit_current-measure :
    (us : List String) (edges : List DelegationEdge) (nodes : Map DelegationNode) (current : String)
    (d : Descent)
    → all (λ e. Set.has us e.to_message_id) edges ≡ true
    → Queued us d (visit_current edges nodes current d)
unfolding visit_current
visit_current-measure us edges nodes current d m = elim (Bool-cases (current == "")) [
  | inl empty ↦ rw (empty, visit_current) (Queued-refl us d)
  | inr other ↦ rw (other, visit_current) (visit_edges-Queued us nodes current d edges m)
]
