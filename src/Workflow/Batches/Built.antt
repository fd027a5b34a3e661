-- ===== src/Workflow/Batches/Built.antt =====
-- The graph that is built: the degrees and the edges count the dependencies.
use oacp.Prelude.{
  ℕ, ◌+◌, String, ◌≡◌, refl, Bool, true, some, List, [], ◌∷◌, ◌++◌, arith, ◌==◌, eq_iff, length,
  all, if◌then◌else◌, Bool-cases, length-append, inl, inr,
}
use oacp.Js.Map
use oacp.Js.Map.{Map, get-set}
use oacp.Js.Set
use oacp.Protocol.Errors.{ok, Result-cases}
use oacp.Workflow.Plan.{SubtaskPlanStep}
use oacp.Workflow.Batches.{
  Degree, at, increment, deps_of, ids, Graph, degree, children_of, zero_degrees, add_edge, add_deps,
  add_steps, build_graph,
}
use oacp.Workflow.Batches.Counts.{count, count-append}
use oacp.Workflow.Batches.Spec.{deps_in}

pub all-append :
    (p : String → Bool) (xs : List String) (x : String)
    → all p xs ≡ true
    → p x ≡ true
    → all p (xs ++ x ∷ []) ≡ true
all-append p [] x h k = ground arith
all-append p (y ∷ xs) x h k = ground (arith, all-append p xs x)

-- `n` are the degrees of the known ids, and `k c i` counts the edges from `c` to `i`.
pub record IsBuilt (known : List String) (n : String → ℕ) (k : String → String → ℕ) (g : Graph)
    : Type 0 where
  pub degrees : (i : String) → Set.has known i ≡ true → Map.get g.in_degree i ≡ some (at (n i))
  pub edges : (c i : String) → count i (children_of g.children c) ≡ k c i
  pub inside : (c : String) → all (Set.has known) (children_of g.children c) ≡ true

add_edge-IsBuilt :
    (known : List String) (n n' : String → ℕ) (k k' : String → String → ℕ) (g : Graph)
    (dep id : String)
    → Set.has known id ≡ true
    → ((i : String) → n' i ≡ n i + (if id == i then 1 else 0))
    → ((c i : String) → k' c i ≡ k c i + (if id == i then count c (dep ∷ []) else 0))
    → IsBuilt known n k g
    → IsBuilt known n' k' (add_edge g dep id)
unfolding add_edge degree children_of increment count
add_edge-IsBuilt known n n' k k' g dep id here en ek v = record {
  degrees = λ i h. ground (
    arith,
    en i,
    v.degrees i,
    v.degrees id,
    get-set g.in_degree id i (increment (degree g.in_degree id)),
    eq_iff id i,
  );
  edges = λ c i. ground (
    arith,
    ek c i,
    v.edges c i,
    v.edges dep i,
    get-set g.children dep c (children_of g.children dep ++ id ∷ []),
    count-append i (children_of g.children dep) (id ∷ []),
    eq_iff id i,
    eq_iff dep c,
  );
  inside = λ c. ground (
    arith,
    v.inside c,
    v.inside dep,
    get-set g.children dep c (children_of g.children dep ++ id ∷ []),
    all-append (Set.has known) (children_of g.children dep) id,
    eq_iff dep c,
  );
}

add_deps-IsBuilt :
    (known : List String) (deps : List String) (n n' : String → ℕ) (k k' : String → String → ℕ)
    (g g' : Graph) (id : String)
    → Set.has known id ≡ true
    → ((i : String) → n' i ≡ n i + (if id == i then length deps else 0))
    → ((c i : String) → k' c i ≡ k c i + (if id == i then count c deps else 0))
    → IsBuilt known n k g
    → add_deps known g id deps ≡ ok g'
    → IsBuilt known n' k' g'
unfolding add_deps count
add_deps-IsBuilt known [] n n' k k' g g' id here en ek v h = record {
  degrees = λ i e. ground (arith, en i, v.degrees i, h);
  edges = λ c i. ground (arith, ek c i, v.edges c i, h);
  inside = λ c. ground (arith, v.inside c, h);
}
add_deps-IsBuilt known (dep ∷ deps) n n' k k' g g' id here en ek v h =
    elim (Bool-cases (Set.has known dep)) [
      | inr unknown ↦ absurd (ground (arith, h, unknown))
      | inl there ↦
          add_deps-IsBuilt known deps (λ i. n i + (if id == i then 1 else 0)) n'
            (λ c i. k c i + (if id == i then count c (dep ∷ []) else 0)) k' (add_edge g dep id) g'
            id here (λ i. ground (arith, en i)) (λ c i. ground (arith, ek c i))
            (add_edge-IsBuilt known n _ k _ g dep id here (λ i. refl) (λ c i. refl) v)
            (ground (arith, h, there))
    ]

add_steps-IsBuilt :
    (known : List String) (steps : List SubtaskPlanStep) (n n' : String → ℕ)
    (k k' : String → String → ℕ) (g g' : Graph)
    → all (λ s. Set.has known s.id) steps ≡ true
    → ((i : String) → n' i ≡ n i + length (deps_in steps i))
    → ((c i : String) → k' c i ≡ k c i + count c (deps_in steps i))
    → IsBuilt known n k g
    → add_steps known g steps ≡ ok g'
    → IsBuilt known n' k' g'
unfolding add_steps deps_in count
add_steps-IsBuilt known [] n n' k k' g g' here en ek v h = record {
  degrees = λ i e. ground (arith, en i, v.degrees i, h);
  edges = λ c i. ground (arith, ek c i, v.edges c i, h);
  inside = λ c. ground (arith, v.inside c, h);
}
add_steps-IsBuilt known (s ∷ steps) n n' k k' g g' here en ek v h =
    elim (Result-cases (add_deps known g s.id (deps_of s))) [
      | inr (e, failed) ↦ absurd (ground (arith, h, failed))
      | inl (next, added) ↦
          add_steps-IsBuilt known steps (λ i. n i + (if s.id == i then length (deps_of s) else 0))
            n' (λ c i. k c i + (if s.id == i then count c (deps_of s) else 0)) k' next g'
            (ground (arith, here))
            (λ i. ground (arith, en i, length-append (deps_of s) (deps_in steps i)))
            (λ c i. ground (arith, ek c i, count-append c (deps_of s) (deps_in steps i)))
            (add_deps-IsBuilt known (deps_of s) n _ k _ g next s.id (ground (arith, here))
              (λ i. refl) (λ c i. refl) v added)
            (ground (arith, h, added))
    ]

zero_degrees-get :
    (d : Map Degree) (steps : List SubtaskPlanStep) (i : String)
    → Map.get (zero_degrees d steps) i
      ≡ (if Set.has (ids steps) i then some (at 0) else Map.get d i)
unfolding zero_degrees Set.has
zero_degrees-get d [] i = refl
zero_degrees-get d (s ∷ steps) i =
    ground (arith, zero_degrees-get (Map.set d s.id (at 0)) steps i, get-set d s.id i (at 0))

has-ids :
    (known : List String) (steps : List SubtaskPlanStep)
    → all (Set.has known) (ids steps) ≡ true
    → all (λ s. Set.has known s.id) steps ≡ true
has-ids known [] h = refl
has-ids known (s ∷ steps) h = ground (arith, has-ids known steps)

pub has_self : (xs : List String) → all (Set.has xs) xs ≡ true
has_self xs = Set.all-of_has (Set.has xs) xs (λ a h. h)

-- An accepted plan has the graph of its dependencies.
pub build_graph-IsBuilt :
    (steps : List SubtaskPlanStep) (g : Graph)
    → build_graph steps ≡ ok g
    → IsBuilt (ids steps) (λ i. length (deps_in steps i)) (λ c i. count c (deps_in steps i)) g
unfolding build_graph children_of Map.get count
build_graph-IsBuilt steps g h =
    add_steps-IsBuilt (ids steps) steps (λ i. 0) _ (λ c i. 0) _
      (record { in_degree = zero_degrees [] steps; children = [] }) g
      (has-ids (ids steps) steps (has_self (ids steps))) (λ i. omega arith) (λ c i. omega arith)
      (record {
        degrees = λ i e. ground (arith, zero_degrees-get [] steps i);
        edges = λ c i. refl;
        inside = λ c. refl;
      })
      h
