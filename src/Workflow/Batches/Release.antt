-- ===== src/Workflow/Batches/Release.antt =====
-- One level of the search: the children of the queue are released.
use oacp.Prelude.{
  ℕ, ◌+◌, String, ◌≡◌, refl, true, false, some, List, [], ◌∷◌, ◌++◌, arith, ◌==◌, eq_iff, all,
  or_else, nat_eq,
}
use mathlib.Core.List.{append_assoc, append-nil}
use oacp.Js.Map
use oacp.Js.Map.{Map, get-set}
use oacp.Js.Set
use oacp.Js.Set.{has-append}
use oacp.Workflow.Batches.{
  Degree, at, decrement, is_zero, children_of, Frontier, release_child, release_children,
  visit_queue,
}
use oacp.Workflow.Batches.Counts.{count, missing, missing-concat, nodup, nodup-append, nodup-concat}
use oacp.Workflow.Batches.Built.{all-append}

-- `n` are the degrees, `out` the ids that were queued before, and exactly the ids of degree 0 were queued,
-- each once.
pub record IsTracked (known out : List String) (n : String → ℕ) (f : Frontier) : Type 0 where
  pub degrees : (i : String) → Set.has known i ≡ true → Map.get f.in_degree i ≡ some (at (n i))
  pub queued :
      (i : String) → Set.has known i ≡ true → Set.has (out ++ f.next_queue) i ≡ nat_eq (n i) 0
  pub unique : nodup (out ++ f.next_queue) ≡ true
  pub inside : all (Set.has known) (out ++ f.next_queue) ≡ true

release_child-IsTracked :
    (known out : List String) (n n' : String → ℕ) (f : Frontier) (x : String)
    → Set.has known x ≡ true
    → ((i : String) → n i ≡ n' i + count i (x ∷ []))
    → IsTracked known out n f
    → IsTracked known out n' (release_child f x)
unfolding release_child decrement count Set.has
release_child-IsTracked known out n n' f x here e v =
    let now : Degree = decrement (or_else (Map.get f.in_degree x) (at 1)) in
    let degree_of : (i : String) → (x == i) ≡ true → now ≡ at (n' i) =
      λ i same. ground (arith, v.degrees x here, e x, e i, eq_iff x i, eq_iff x x) in
    let fresh : Set.has (out ++ f.next_queue) x ≡ false =
      ground (arith, v.queued x here, e x, eq_iff x x) in
    let zero_now : is_zero now ≡ nat_eq (n' x) 0 = ground (arith, degree_of x, eq_iff x x) in
    record {
      degrees = λ i h.
          ground (arith, degree_of i, v.degrees i h, e i, get-set f.in_degree x i now, eq_iff x i);
      queued = λ i h. ground (
        arith,
        zero_now,
        fresh,
        v.queued i h,
        e i,
        append_assoc out f.next_queue (x ∷ []),
        has-append (out ++ f.next_queue) (x ∷ []) i,
        eq_iff x i,
      );
      unique = ground (
        arith,
        v.unique,
        fresh,
        append_assoc out f.next_queue (x ∷ []),
        nodup-concat (out ++ f.next_queue) x,
      );
      inside = ground (
        arith,
        v.inside,
        append_assoc out f.next_queue (x ∷ []),
        all-append (Set.has known) (out ++ f.next_queue) x,
      );
    }

release_children-IsTracked :
    (known out : List String) (cs : List String) (n n' : String → ℕ) (f : Frontier)
    → all (Set.has known) cs ≡ true
    → ((i : String) → n i ≡ n' i + count i cs)
    → IsTracked known out n f
    → IsTracked known out n' (release_children f cs)
unfolding release_children count
release_children-IsTracked known out [] n n' f here e v = record {
  degrees = λ i h. ground (arith, v.degrees i h, e i);
  queued = λ i h. ground (arith, v.queued i h, e i);
  unique = v.unique;
  inside = v.inside;
}
release_children-IsTracked known out (x ∷ cs) n n' f here e v =
    release_children-IsTracked known out cs (λ i. n' i + count i cs) n' (release_child f x)
      (ground (arith, here)) (λ i. refl)
      (release_child-IsTracked known out n _ f x (ground (arith, here)) (λ i. ground (arith, e i))
        v)

module _ (known : List String) (d : String → List String) (children : Map (List String))
    (edges : (c i : String) → count i (children_of children c) ≡ count c (d i))
    (inside : (c : String) → all (Set.has known) (children_of children c) ≡ true) where
  -- Once a level is visited, the degrees count the dependencies that are not visited yet.
  pub visit_queue-IsTracked :
      (done queue out : List String) (f : Frontier)
      → nodup (done ++ queue) ≡ true
      → IsTracked known out (λ i. missing done (d i)) f
      → IsTracked known out (λ i. missing (done ++ queue) (d i)) (visit_queue children f queue)
  unfolding visit_queue
  visit_queue-IsTracked done [] out f u v = rw append-nil v
  visit_queue-IsTracked done (c ∷ queue) out f u v = rw (← append_assoc done (c ∷ []) queue) (
      visit_queue-IsTracked (done ++ c ∷ []) queue out (release_children f (children_of children c))
        (ground (arith, u, append_assoc done (c ∷ []) queue))
        (release_children-IsTracked known out (children_of children c) (λ i. missing done (d i))
          (λ i. missing (done ++ c ∷ []) (d i)) f (inside c)
          (λ i.
            ground (arith, missing-concat done c (d i), nodup-append done c queue, u, edges c i))
          v))
