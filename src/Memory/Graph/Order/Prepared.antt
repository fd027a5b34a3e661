-- ===== src/Memory/Graph/Order/Prepared.antt =====
-- What the order of core/src/memory/delegation-graph-builder.ts starts from.
use oacp.Prelude.{
  ◌≤◌, String, ◌≡◌, refl, Bool, true, false, ◌&&◌, ◌||◌, some, List, [], ◌∷◌, ◌++◌, length, all,
  or_else, if◌then◌else◌, arith, eq_iff, Bool-cases, inl, inr, filter,
}
use oacp.Js.Map
use oacp.Js.Map.{Map}
use oacp.Js.Set
use oacp.Js.Set.{has-add, has-append}
use oacp.Workflow.Batches.{Degree, at, Graph, degree, increment, add_edge, children_of}
use oacp.Workflow.Batches.Counts.{nodup, nodup-concat}
use oacp.Workflow.Batches.Built.{all-append}
use oacp.Memory.Graph.{DelegationEdge}
use oacp.Memory.Graph.Finish.{is_parent_kind, targets}
use oacp.Memory.Graph.Order.{zero_degrees, add_work_edge, add_work_edges, add_missing}

-- What is missing is added once.
pub add_missing-nodup :
    (order ids : List String) → nodup order ≡ true → nodup (add_missing order ids) ≡ true
unfolding add_missing
add_missing-nodup order [] h = h
add_missing-nodup order (id ∷ ids) h = elim (Bool-cases (Set.has order id)) [
  | inl there ↦ rw (there, add_missing) (add_missing-nodup order ids h)
  | inr fresh ↦
      rw (fresh, add_missing)
        (add_missing-nodup (order ++ id ∷ []) ids (nodup-concat order id h fresh))
]

pub has-add_missing :
    (order ids : List String) (x : String)
    → Set.has (add_missing order ids) x ≡ (Set.has order x || Set.has ids x)
unfolding add_missing Set.has
has-add_missing order [] x = ground arith
has-add_missing order (id ∷ ids) x = elim (Bool-cases (Set.has order id)) [
  | inl there ↦
      rw (there, add_missing) (ground (arith, has-add_missing order ids x, there, eq_iff id x))
  | inr fresh ↦
      rw (fresh, add_missing)
        (ground (arith, has-add_missing (order ++ id ∷ []) ids x, has-append order (id ∷ []) x))
]

-- The children are work nodes, and so are the targets that count.
pub record IsPrepared (work : List String) (g : Graph) : Type 0 where
  pub closed : (id : String) → all (Set.has work) (children_of g.children id) ≡ true

add_work_edge-IsPrepared :
    (work : List String) (g : Graph) (e : DelegationEdge)
    → IsPrepared work g
    → IsPrepared work (add_work_edge work g e)
unfolding add_work_edge add_edge children_of
add_work_edge-IsPrepared work g e p =
    elim (Bool-cases
      (is_parent_kind e.kind && (Set.has work e.from_message_id && Set.has work e.to_message_id))) [
        | inl counts ↦
            rw (counts, add_work_edge)
              (record {
                closed = λ id. ground (
                  arith,
                  Map.get-set g.children e.from_message_id id
                      (or_else (Map.get g.children e.from_message_id) [] ++ e.to_message_id ∷ []),
                  p.closed id,
                  p.closed e.from_message_id,
                  all-append (Set.has work) (or_else (Map.get g.children e.from_message_id) [])
                      e.to_message_id,
                  counts,
                );
              })
        | inr skipped ↦ rw (skipped, add_work_edge) p
      ]

pub add_work_edges-IsPrepared :
    (work : List String) (g : Graph) (edges : List DelegationEdge)
    → IsPrepared work g
    → IsPrepared work (add_work_edges work g edges)
unfolding add_work_edges
add_work_edges-IsPrepared work g [] p = p
add_work_edges-IsPrepared work g (e ∷ edges) p =
    add_work_edges-IsPrepared work (add_work_edge work g e) edges
      (add_work_edge-IsPrepared work g e p)

-- An id that is no target keeps its degree.
pub degree-add_work_edges :
    (work : List String) (g : Graph) (edges : List DelegationEdge) (x : String)
    → Set.has (targets edges) x ≡ false
    → Map.get (add_work_edges work g edges).in_degree x ≡ Map.get g.in_degree x
unfolding add_work_edges add_work_edge add_edge Set.has
degree-add_work_edges work g [] x h = refl
degree-add_work_edges work g (e ∷ edges) x h = ground (
  arith,
  h,
  degree-add_work_edges work (add_work_edge work g e) edges x,
  Map.get-set g.in_degree e.to_message_id x (increment (degree g.in_degree e.to_message_id)),
  eq_iff e.to_message_id x,
)

pub get-zero_degrees :
    (d : Map Degree) (ids : List String) (x : String)
    → Map.get (zero_degrees d ids) x ≡ (if Set.has ids x then some (at 0) else Map.get d x)
unfolding zero_degrees Set.has
get-zero_degrees d [] x = refl
get-zero_degrees d (id ∷ ids) x =
    ground
      (arith, get-zero_degrees (Map.set d id (at 0)) ids x, Map.get-set d id x (at 0), eq_iff id x)

pub has-filter :
    (p : String → Bool) (xs : List String) (x : String)
    → Set.has (filter p xs) x ≡ (Set.has xs x && p x)
unfolding Set.has
has-filter p [] x = refl
has-filter p (y ∷ xs) x = ground (arith, has-filter p xs x, eq_iff y x)

pub nodup-filter :
    (p : String → Bool) (xs : List String) → nodup xs ≡ true → nodup (filter p xs) ≡ true
nodup-filter p [] h = refl
nodup-filter p (x ∷ xs) h = ground (arith, h, nodup-filter p xs, has-filter p xs x)

pub all-filter : (p : String → Bool) (xs : List String) → all p (filter p xs) ≡ true
all-filter p [] = refl
all-filter p (x ∷ xs) = ground (arith, all-filter p xs)

pub length-filter : (p : String → Bool) (xs : List String) → length (filter p xs) ≤ length xs
length-filter p [] = omega arith
length-filter p (x ∷ xs) = ground (arith, length-filter p xs)
