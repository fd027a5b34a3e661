-- ===== src/Memory/Graph/Order/Queue.antt =====
-- The queue of the order of core/src/memory/delegation-graph-builder.ts ends, and holds each id once.
use oacp.Prelude.{
  ℕ, zero, suc, ◌+◌, ◌≤◌, ◌<◌, String, ◌≡◌, refl, Bool, true, false, Option, some, List, [], ◌∷◌,
  ◌++◌, length, all, arith, ◌==◌, eq_iff, Bool-cases, inl, inr, length-append, subst,
}
use mathlib.Core.List.{append_assoc, append-nil}
use oacp.Js.Map
use oacp.Js.Map.{Map}
use oacp.Js.Set
use oacp.Js.Set.{has-add, has-append}
use oacp.Workflow.Batches.{Degree, is_zero, children_of, Frontier, release_child, release_children}
use oacp.Workflow.Batches.Counts.{nodup, nodup-concat}
use oacp.Workflow.Batches.Built.{all-append}
use oacp.Memory.Graph.Order.{order_queue}
use oacp.Memory.Graph.Order.Degrees.{
  is_positive, waiting, waiting-set_le, waiting-set_lt, IsQueued, lowered, lowered-is_zero,
  lowered-is_positive,
}

abbrev IsReleased : List String → List String → Frontier → Frontier → Type 0
IsReleased us order f f' =
    IsQueued us order f'
    × (length f'.next_queue + waiting us f'.in_degree
        ≤ length f.next_queue + waiting us f.in_degree)

release_child-IsReleased :
    (us order : List String) (f : Frontier) (c : String)
    → Set.has us c ≡ true
    → IsQueued us order f
    → IsReleased us order f (release_child f c)
unfolding release_child
release_child-IsReleased us order f c m v =
    let before : Option Degree = Map.get f.in_degree c in
    let now : Degree = lowered (Map.get f.in_degree c) in
    let settled : (x : String)
        → is_positive (Map.get (Map.set f.in_degree c now) x) ≡ true
        → Set.has (order ++ f.next_queue) x ≡ false =
      λ x p. ground (
        arith,
        v.settled x,
        Map.get-set f.in_degree c x now,
        eq_iff c x,
        lowered-is_positive before,
        p,
      ) in
    elim (Bool-cases (is_zero (lowered (Map.get f.in_degree c)))) [
      | inl zero_now ↦
          let was : is_positive (Map.get f.in_degree c) ≡ true =
            (lowered-is_zero before zero_now).0 in
          let now_not : is_positive (some now) ≡ false = (lowered-is_zero before zero_now).1 in
          let fewer : waiting us (Map.set f.in_degree c now) < waiting us f.in_degree =
            waiting-set_lt us f.in_degree c now m was now_not in
          let longer : length (f.next_queue ++ c ∷ []) ≡ length f.next_queue + 1 =
            length-append f.next_queue (c ∷ []) in
          rw (zero_now, release_child)
            (
              record {
                unique =
                    rw (← append_assoc order f.next_queue (c ∷ []))
                      (nodup-concat (order ++ f.next_queue) c v.unique (v.settled c was));
                inside =
                    rw (← append_assoc order f.next_queue (c ∷ []))
                      (all-append (Set.has us) (order ++ f.next_queue) c v.inside m);
                settled = λ x p. rw (← append_assoc order f.next_queue (c ∷ [])) (
                    unfold Set.has in
                    ground (
                      arith,
                      has-append (order ++ f.next_queue) (c ∷ []) x,
                      settled x,
                      Map.get-set f.in_degree c x now,
                      eq_iff c x,
                      now_not,
                      p,
                    ));
              },
              omega (arith, fewer, longer),
            )
      | inr later ↦
          rw (later, release_child)
            (
              record { unique = v.unique; inside = v.inside; settled = settled },
              omega (arith, waiting-set_le us f.in_degree c now (lowered-is_positive before)),
            )
    ]

release_children-IsReleased :
    (us order : List String) (f : Frontier) (cs : List String)
    → all (Set.has us) cs ≡ true
    → IsQueued us order f
    → IsReleased us order f (release_children f cs)
unfolding release_children
release_children-IsReleased us order f [] m v = (v, omega arith)
release_children-IsReleased us order f (c ∷ cs) m v =
    let (w, le) : IsReleased us order f (release_child f c) =
      release_child-IsReleased us order f c (ground (arith, m)) v in
    let (w2, le2) : IsReleased us order (release_child f c)
        (release_children (release_child f c) cs) =
      release_children-IsReleased us order (release_child f c) cs (ground (arith, m)) w in
    (w2, omega (arith, le, le2))

nodup-drop :
    (xs : List String) (c : String) (ys : List String)
    → nodup (xs ++ c ∷ ys) ≡ true
    → nodup (xs ++ ys) ≡ true
unfolding Set.has
nodup-drop [] c ys h = ground (arith, h)
nodup-drop (x ∷ xs) c ys h =
    ground (arith, nodup-drop xs c ys, has-append xs (c ∷ ys) x, has-append xs ys x, h)

all-drop :
    (p : String → Bool) (xs : List String) (c : String) (ys : List String)
    → all p (xs ++ c ∷ ys) ≡ true
    → all p (xs ++ ys) ≡ true
all-drop p [] c ys h = ground (arith, h)
all-drop p (x ∷ xs) c ys h = ground (arith, all-drop p xs c ys, h)

take_next :
    (us order queue : List String) (d : Map Degree) (c : String)
    → IsQueued us order (record { in_degree = d; next_queue = c ∷ queue })
    → IsQueued us (order ++ c ∷ []) (record { in_degree = d; next_queue = queue })
take_next us order queue d c v = record {
  unique = rw (append_assoc order (c ∷ []) queue) v.unique;
  inside = rw (append_assoc order (c ∷ []) queue) v.inside;
  settled = λ x p. rw (append_assoc order (c ∷ []) queue) (v.settled x p);
}

skip_next :
    (us order queue : List String) (d : Map Degree) (c : String)
    → IsQueued us order (record { in_degree = d; next_queue = c ∷ queue })
    → IsQueued us order (record { in_degree = d; next_queue = queue })
skip_next us order queue d c v = record {
  unique = nodup-drop order c queue v.unique;
  inside = all-drop (Set.has us) order c queue v.inside;
  settled = λ x p.
      unfold Set.has in
      ground (arith, v.settled x p, has-append order (c ∷ queue) x, has-append order queue x);
}

-- The order that a queue ends in lists known ids, each once.
unfoldable pub IsListed : List String → Option (List String) → Type 0
IsListed us r =
    (out : List String) × (r ≡ some out) × (nodup out ≡ true) × (all (Set.has us) out ≡ true)

order_queue-skip :
    (children : Map (List String)) (fuel : ℕ) (d : Map Degree) (c : String)
    (queue order : List String)
    → (c == "") ≡ true
    → order_queue children (suc fuel) d (c ∷ queue) order ≡ order_queue children fuel d queue order
unfolding order_queue
order_queue-skip children fuel d c queue order h = rw (h, order_queue) refl

order_queue-take :
    (children : Map (List String)) (fuel : ℕ) (d : Map Degree) (c : String)
    (queue order : List String)
    → (c == "") ≡ false
    → order_queue children (suc fuel) d (c ∷ queue) order ≡ (
        let after : Frontier =
          release_children
            (record { in_degree = d; next_queue = queue })
            (children_of children c) in
        order_queue children fuel after.in_degree after.next_queue (order ++ c ∷ []))
unfolding order_queue
order_queue-take children fuel d c queue order h = rw (h, order_queue) refl

module _ (us : List String) (children : Map (List String))
    (closed : (id : String) → all (Set.has us) (children_of children id) ≡ true) where
  pub order_queue-IsListed :
      (fuel : ℕ) (d : Map Degree) (queue order : List String)
      → IsQueued us order (record { in_degree = d; next_queue = queue })
      → length queue + waiting us d ≤ fuel
      → IsListed us (order_queue children fuel d queue order)
  unfolding order_queue IsListed
  order_queue-IsListed fuel d [] order v le = (
    order,
    refl,
    subst (λ l. nodup l ≡ true) (append-nil order) v.unique,
    subst (λ l. all (Set.has us) l ≡ true) (append-nil order) v.inside,
  )
  order_queue-IsListed zero d (c ∷ queue) order v le = absurd (omega (arith, le))
  order_queue-IsListed (suc fuel) d (c ∷ queue) order v le = elim (Bool-cases (c == "")) [
    | inl empty ↦ rw (order_queue-skip children fuel d c queue order empty) (
        order_queue-IsListed fuel d queue order (skip_next us order queue d c v)
          (omega (arith, le)))
    | inr other ↦
        let f : Frontier = record { in_degree = d; next_queue = queue } in
        let (w, less) : IsReleased us (order ++ c ∷ []) f
            (release_children f (children_of children c)) =
          release_children-IsReleased us (order ++ c ∷ []) f (children_of children c) (closed c)
            (take_next us order queue d c v) in
        let after : Frontier = release_children f (children_of children c) in
        rw (order_queue-take children fuel d c queue order other) (
          order_queue-IsListed fuel after.in_degree after.next_queue (order ++ c ∷ []) w
            (omega (arith, less, le)))
  ]
