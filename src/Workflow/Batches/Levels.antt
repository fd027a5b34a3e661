-- ===== src/Workflow/Batches/Levels.antt =====
-- The loop over the levels of the search.
use oacp.Prelude.{
  ℕ, zero, suc, ◌+◌, ◌≤◌, String, ◌≡◌, refl, true, some, List, [], ◌∷◌, ◌++◌, arith, all, length,
  length-append,
}
use mathlib.Core.List.{append_assoc, append-nil}
use oacp.Js.Map.{Map}
use oacp.Js.Set
use oacp.Js.Set.{has-append, all-of_has, has-of_all}
use oacp.Workflow.Batches.{Degree, children_of, Frontier, visit_queue, levels, flatten}
use oacp.Workflow.Batches.Counts.{count, missing, missing-zero, length-nodup}
use oacp.Workflow.Batches.Spec.{IsComplete}
use oacp.Workflow.Batches.Release.{IsTracked, visit_queue-IsTracked}

abbrev frontier : Map Degree → List String → Frontier
frontier d next = record { in_degree = d; next_queue = next }

module _ (known : List String) (deps : String → List String) (children : Map (List String))
    (edges : (c i : String) → count i (children_of children c) ≡ count c (deps i))
    (inside : (c : String) → all (Set.has known) (children_of children c) ≡ true) where
  -- At the start of a level.
  abbrev IsLevel : List String → List String → Map Degree → Type 0
  IsLevel done queue d =
      IsTracked known (done ++ queue) (λ i. missing done (deps i)) (frontier d [])

  next-IsLevel :
      (done queue next : List String) (d : Map Degree)
      → IsTracked known (done ++ queue) (λ i. missing (done ++ queue) (deps i)) (frontier d next)
      → IsLevel (done ++ queue) next d
  next-IsLevel done queue next d v = record {
    degrees = v.degrees;
    queued = λ i h. rw (append-nil ((done ++ queue) ++ next)) (v.queued i h);
    unique = rw (append-nil ((done ++ queue) ++ next)) v.unique;
    inside = rw (append-nil ((done ++ queue) ++ next)) v.inside;
  }

  visit-IsLevel :
      (done queue : List String) (d : Map Degree)
      → IsLevel done queue d
      → IsLevel
          (done ++ queue)
          (visit_queue children (frontier d []) queue).next_queue
          (visit_queue children (frontier d []) queue).in_degree
  visit-IsLevel done queue d v = next-IsLevel done queue _ _ (
      visit_queue-IsTracked known deps children edges inside done queue (done ++ queue)
        (frontier d []) (rw (append-nil (done ++ queue)) at v.unique) v)

  -- What is queued has its dependencies among the ids that are done.
  queue-ready :
      (done queue : List String) (d : Map Degree)
      → IsLevel done queue d
      → all (λ i. all (Set.has done) (deps i)) queue ≡ true
  queue-ready done queue d v = all-of_has _ queue (λ i m.
      let here : Set.has (done ++ queue) i ≡ true = ground (arith, m, has-append done queue i) in
      let there : Set.has known i ≡ true =
        has-of_all (Set.has known) (done ++ queue) i (rw (append-nil (done ++ queue)) at v.inside)
          here in
      ground
        (arith, here, v.queued i there, append-nil (done ++ queue), missing-zero done (deps i)))

  finished-IsComplete :
      (done : List String) (d : Map Degree) → IsLevel done [] d → IsComplete known deps done []
  unfolding flatten
  finished-IsComplete done d v = record {
    ordered = tt;
    unique = rw (append-nil (done ++ [])) at v.unique;
    inside = rw (append-nil (done ++ [])) at v.inside;
    closed = λ i h. ground (arith, v.queued i h, append-nil done, missing-zero done (deps i));
  }

  prepend-IsComplete :
      (done queue : List String) (bs : List (List String))
      → all (λ i. all (Set.has done) (deps i)) queue ≡ true
      → IsComplete known deps (done ++ queue) bs
      → IsComplete known deps done (queue ∷ bs)
  unfolding flatten
  prepend-IsComplete done queue bs r v = record {
    ordered = (r, v.ordered);
    unique = rw (← append_assoc done queue (flatten bs)) v.unique;
    inside = rw (← append_assoc done queue (flatten bs)) v.inside;
    closed = λ i h. rw (← append_assoc done queue (flatten bs)) (v.closed i h);
  }

  -- Fuel for one level per id that is not done is enough.
  pub levels-IsComplete :
      (fuel : ℕ) (done queue : List String) (d : Map Degree)
      → IsLevel done queue d
      → length known ≤ fuel + length done
      → (bs : List (List String)) × (levels children fuel d queue ≡ some bs)
        × IsComplete known deps done bs
  unfolding levels
  levels-IsComplete fuel done [] d v h = ([], refl, finished-IsComplete done d v)
  levels-IsComplete zero done (q ∷ queue) d v h = absurd (
      ground (
        arith,
        h,
        length-append done (q ∷ queue),
        length-nodup (done ++ q ∷ queue) known (rw (append-nil (done ++ q ∷ queue)) at v.unique)
            (rw (append-nil (done ++ q ∷ queue)) at v.inside),
      ))
  levels-IsComplete (suc fuel) done (q ∷ queue) d v h =
      let after : Frontier = visit_queue children (frontier d []) (q ∷ queue) in
      let (bs, e, complete) =
        levels-IsComplete fuel (done ++ q ∷ queue) after.next_queue after.in_degree
          (visit-IsLevel done (q ∷ queue) d v) (omega (arith, h, length-append done (q ∷ queue))) in
      (
        (q ∷ queue) ∷ bs,
        rw (e, levels),
        prepend-IsComplete done (q ∷ queue) bs (queue-ready done (q ∷ queue) d v) complete,
      )
