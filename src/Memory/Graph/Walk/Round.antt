-- ===== src/Memory/Graph/Walk/Round.antt =====
-- One round of the search for descendants of core/src/memory/delegation-graph-builder.ts.
use oacp.Prelude.{
  ◌+◌, ◌≤◌, ◌<◌, String, ◌≡◌, true, false, not, ◌&&◌, ◌||◌, List, [], ◌∷◌, ◌++◌, length, all, arith,
  ◌==◌, eq_iff, Bool-cases, inl, inr, length-append,
}
use oacp.Js.Map.{Map}
use oacp.Js.Set
use oacp.Js.Set.{has-add, has-append}
use oacp.Memory.Graph.{DelegationNode, DelegationEdge}
use oacp.Memory.Graph.Depth.Unseen.{unseen, unseen-add_lt}
use oacp.Memory.Graph.Walk.{Descent, visit_edge, visit_edges}
use oacp.Memory.Graph.Walk.Paths.{step}

visit_edge-visited :
    (nodes : Map DelegationNode) (current : String) (d : Descent) (e : DelegationEdge) (x : String)
    → Set.has (visit_edge nodes current d e).visited x
      ≡ (Set.has d.visited x || (e.from_message_id == current && e.to_message_id == x))
unfolding visit_edge
visit_edge-visited nodes current d e x =
    ground (arith, has-add d.visited e.to_message_id x, eq_iff e.to_message_id x)

pub visit_edges-visited :
    (nodes : Map DelegationNode) (current : String) (d : Descent) (edges : List DelegationEdge)
    (x : String)
    → Set.has (visit_edges nodes current d edges).visited x
      ≡ (Set.has d.visited x || step edges current x)
unfolding visit_edges step
visit_edges-visited nodes current d [] x = ground arith
visit_edges-visited nodes current d (e ∷ edges) x = ground (
  arith,
  visit_edges-visited nodes current (visit_edge nodes current d e) edges x,
  visit_edge-visited nodes current d e x,
)

-- What is visited in some steps is queued, and what was queued stays.
pub record Queued (us : List String) (d d' : Descent) : Type 0 where
  pub queued :
      (x : String)
      → Set.has d'.queue x
        ≡ (Set.has d.queue x || (Set.has d'.visited x && not (Set.has d.visited x)))
  pub grows : (x : String) → Set.has d.visited x ≡ true → Set.has d'.visited x ≡ true
  pub measure : length d'.queue + unseen us d'.visited ≤ length d.queue + unseen us d.visited

pub Queued-refl : (us : List String) (d : Descent) → Queued us d d
Queued-refl us d = record { queued = λ x. ground arith; grows = λ x h. h; measure = omega arith }

Queued-trans : (us : List String) (a b c : Descent) → Queued us a b → Queued us b c → Queued us a c
Queued-trans us a b c p q = record {
  queued = λ x. ground (arith, p.queued x, q.queued x, p.grows x, q.grows x);
  grows = λ x h. q.grows x (p.grows x h);
  measure = omega (arith, p.measure, q.measure);
}

visit_edge-Queued :
    (us : List String) (nodes : Map DelegationNode) (current : String) (d : Descent)
    (e : DelegationEdge)
    → Set.has us e.to_message_id ≡ true
    → Queued us d (visit_edge nodes current d e)
unfolding visit_edge
visit_edge-Queued us nodes current d e m =
    elim (Bool-cases (not (e.from_message_id == current) || Set.has d.visited e.to_message_id)) [
      | inl skip ↦ rw (skip, visit_edge) (Queued-refl us d)
      | inr go ↦
          let t : String = e.to_message_id in
          let fresh : Set.has d.visited e.to_message_id ≡ false = ground (arith, go) in
          let fewer : unseen us (Set.add d.visited e.to_message_id) < unseen us d.visited =
            unseen-add_lt us d.visited e.to_message_id m fresh in
          let longer : length (d.queue ++ e.to_message_id ∷ []) ≡ length d.queue + 1 =
            length-append d.queue (e.to_message_id ∷ []) in
          rw (go, visit_edge)
            (record {
              queued = λ x.
                  unfold Set.has in
                  ground (
                    arith,
                    has-append d.queue (e.to_message_id ∷ []) x,
                    has-add d.visited e.to_message_id x,
                    eq_iff e.to_message_id x,
                    fresh,
                  );
              grows = λ x h. ground (arith, has-add d.visited e.to_message_id x, h);
              measure = omega (arith, fewer, longer);
            })
    ]

pub visit_edges-Queued :
    (us : List String) (nodes : Map DelegationNode) (current : String) (d : Descent)
    (edges : List DelegationEdge)
    → all (λ e. Set.has us e.to_message_id) edges ≡ true
    → Queued us d (visit_edges nodes current d edges)
unfolding visit_edges
visit_edges-Queued us nodes current d [] m = Queued-refl us d
visit_edges-Queued us nodes current d (e ∷ edges) m =
    Queued-trans us d (visit_edge nodes current d e)
      (visit_edges nodes current (visit_edge nodes current d e) edges)
      (visit_edge-Queued us nodes current d e (ground (arith, m)))
      (visit_edges-Queued us nodes current (visit_edge nodes current d e) edges (ground (arith, m)))
