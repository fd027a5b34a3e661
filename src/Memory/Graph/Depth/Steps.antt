-- ===== src/Memory/Graph/Depth/Steps.antt =====
-- One walk down a graph of core/src/memory/delegation-graph-builder.ts ends.
use oacp.Prelude.{
  ℕ, zero, suc, ◌+◌, ◌≤◌, ◌<◌, max, String, ◌≡◌, refl, true, false, Option, some, List, [], ◌∷◌,
  all, arith, Bool-cases, inl, inr,
}
use oacp.Js.Map.{Map}
use oacp.Js.Set
use oacp.Memory.Graph.Finish.{children_of, deepest_of, one_deeper, depth_from}
use oacp.Memory.Graph.Depth.Unseen.{unseen, unseen-add_lt}

-- A depth comes back that is no more than the ids visited on the way.
unfoldable pub Returned : List String → Set.Set → Option (ℕ × Set.Set) → Type 0
Returned us visited r =
    (d : ℕ) × (after : Set.Set) × (r ≡ some (d, after)) × (d + unseen us after ≤ unseen us visited)

deepest_of_lem :
    (depth : String → Set.Set → Option (ℕ × Set.Set)) (child : String) (rest : List String)
    (visited after last : Set.Set) (d deepest : ℕ)
    → depth child visited ≡ some (d, after)
    → deepest_of depth rest after ≡ some (deepest, last)
    → deepest_of depth (child ∷ rest) visited ≡ some (max d deepest, last)
unfolding deepest_of
deepest_of_lem depth child rest visited after last d deepest e f =
    rw (e, deepest_of) (rw (f, deepest_of) refl)

depth_from-visited :
    (children : Map (List String)) (fuel : ℕ) (node : String) (visited : Set.Set)
    → Set.has visited node ≡ true
    → depth_from children (suc fuel) node visited ≡ some (0, visited)
unfolding depth_from
depth_from-visited children fuel node visited h = rw (h, depth_from) refl

depth_from-fresh :
    (children : Map (List String)) (fuel : ℕ) (node : String) (visited after : Set.Set) (d : ℕ)
    → Set.has visited node ≡ false
    → deepest_of (depth_from children fuel) (children_of children node) (Set.add visited node)
      ≡ some (d, after)
    → depth_from children (suc fuel) node visited ≡ some (suc d, after)
unfolding depth_from one_deeper
depth_from-fresh children fuel node visited after d h e =
    rw (h, depth_from) (rw (e, one_deeper) refl)

deepest_of-Returned :
    (us : List String) (k : ℕ) (depth : String → Set.Set → Option (ℕ × Set.Set))
    → ((child : String) (visited : Set.Set)
        → Set.has us child ≡ true
        → unseen us visited < k
        → Returned us visited (depth child visited))
    → (children : List String) (visited : Set.Set) → all (Set.has us) children ≡ true
    → unseen us visited < k
    → Returned us visited (deepest_of depth children visited)
unfolding Returned deepest_of
deepest_of-Returned us k depth h [] visited m lt = (0, visited, refl, omega arith)
deepest_of-Returned us k depth h (child ∷ rest) visited m lt =
    let (d, after, e, le) : Returned us visited (depth child visited) =
      h child visited (ground (arith, m)) lt in
    let (deepest, last, e2, le2) : Returned us after (deepest_of depth rest after) =
      deepest_of-Returned us k depth h rest after (ground (arith, m)) (omega (arith, le, lt)) in
    (
      max d deepest,
      last,
      deepest_of_lem depth child rest visited after last d deepest e e2,
      omega (arith, le, le2),
    )

module _ (us : List String) (children : Map (List String))
    (closed : (id : String) → all (Set.has us) (children_of children id) ≡ true) where
  pub depth_from-Returned :
      (fuel : ℕ) (node : String) (visited : Set.Set)
      → Set.has us node ≡ true
      → unseen us visited < fuel
      → Returned us visited (depth_from children fuel node visited)
  unfolding Returned
  depth_from-Returned zero node visited m lt = absurd (omega (arith, lt))
  depth_from-Returned (suc fuel) node visited m lt = elim (Bool-cases (Set.has visited node)) [
    | inl seen ↦ (0, visited, depth_from-visited children fuel node visited seen, omega arith)
    | inr fresh ↦
        let fewer : unseen us (Set.add visited node) < unseen us visited =
          unseen-add_lt us visited node m fresh in
        let (d, after, e, le) : Returned us (Set.add visited node) (
            deepest_of (depth_from children fuel) (children_of children node)
              (Set.add visited node)) =
          deepest_of-Returned us fuel (depth_from children fuel) (depth_from-Returned fuel)
            (children_of children node) (Set.add visited node) (closed node)
            (omega (arith, fewer, lt)) in
        (
          suc d,
          after,
          depth_from-fresh children fuel node visited after d fresh e,
          omega (arith, fewer, le),
        )
  ]
