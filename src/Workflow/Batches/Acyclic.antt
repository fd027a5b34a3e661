-- ===== src/Workflow/Batches/Acyclic.antt =====
-- A plan without cycles is accepted.
use oacp.Prelude.{
  ℕ, zero, suc, ◌≤◌, ◌<◌, String, ◌≡◌, refl, ◌∙◌, Bool, true, some, List, [], ◌∷◌, ◌++◌, arith, all,
  length, ltb,
}
use oacp.Js.Set
use oacp.Js.Set.{all-of_has, has-of_all}
use oacp.Protocol.Errors.{ok}
use oacp.Workflow.Plan.{SubtaskPlanStep}
use oacp.Workflow.Batches.{
  ids, deps_of, Graph, add_edge, add_deps, add_steps, build_graph, flatten, check_visited,
  plan_execution_batches, zero_degrees,
}
use oacp.Workflow.Batches.Counts.{nodup, length-nodup}
use oacp.Workflow.Batches.Spec.{deps_in, IsComplete}
use oacp.Workflow.Batches.Schedule.{levels_lem, length-ids}

add_deps-ok :
    (known : List String) (g : Graph) (id : String) (deps : List String)
    → all (Set.has known) deps ≡ true
    → (next : Graph) × (add_deps known g id deps ≡ ok next)
unfolding add_deps
add_deps-ok known g id [] h = (g, refl)
add_deps-ok known g id (dep ∷ deps) h =
    let (next, e) = add_deps-ok known (add_edge g dep id) id deps (ground (arith, h)) in
    (next, ground (arith, h, e))

add_steps-ok :
    (known : List String) (g : Graph) (steps : List SubtaskPlanStep)
    → all (λ s. all (Set.has known) (deps_of s)) steps ≡ true
    → (next : Graph) × (add_steps known g steps ≡ ok next)
unfolding add_steps
add_steps-ok known g [] h = (g, refl)
add_steps-ok known g (s ∷ steps) h =
    let (g', e) = add_deps-ok known g s.id (deps_of s) (ground (arith, h)) in
    let (next, f) = add_steps-ok known g' steps (ground (arith, h)) in (next, rw (e, add_steps) f)

all_both :
    (p : String → Bool) (xs ys : List String)
    → all p xs ≡ true
    → all p ys ≡ true
    → all p (xs ++ ys) ≡ true
all_both p [] ys h k = k
all_both p (x ∷ xs) ys h k = ground (arith, h, k, all_both p xs ys)

deps_in-known :
    (known : List String) (steps : List SubtaskPlanStep) (i : String)
    → all (λ s. all (Set.has known) (deps_of s)) steps ≡ true
    → all (Set.has known) (deps_in steps i) ≡ true
unfolding deps_in
deps_in-known known [] i h = refl
deps_in-known known (s ∷ steps) i h =
    ground (
      arith,
      h,
      deps_in-known known steps i,
      all_both (Set.has known) (deps_of s) (deps_in steps i),
    )

module _ (known : List String) (deps : String → List String) (rank : String → ℕ)
    (inside : (i : String) → all (Set.has known) (deps i) ≡ true)
    (falls : all (λ i. all (λ d. ltb (rank d) (rank i)) (deps i)) known ≡ true) where
  -- By induction on the rank, no id is left out.
  has-below :
      (bs : List (List String)) (n : ℕ) (i : String)
      → IsComplete known deps [] bs
      → Set.has known i ≡ true
      → rank i < n
      → Set.has (flatten bs) i ≡ true
  has-below bs zero i v m h = ground (arith, h)
  has-below bs (suc n) i v m h =
      v.closed i m
      ∙ all-of_has (Set.has (flatten bs)) (deps i) (λ d k.
        has-below bs n d v (has-of_all (Set.has known) (deps i) d (inside i) k) (
          ground (
            arith,
            h,
            has-of_all (λ e. ltb (rank e) (rank i)) (deps i) d
                (has-of_all (λ j. all (λ e. ltb (rank e) (rank j)) (deps j)) known i falls m) k,
          )))

  length-flatten :
      (bs : List (List String))
      → nodup known ≡ true
      → IsComplete known deps [] bs
      → length (flatten bs) ≡ length known
  length-flatten bs u v = omega (
    arith,
    length-nodup (flatten bs) known v.unique v.inside,
    length-nodup known (flatten bs) u (
        all-of_has (Set.has (flatten bs)) known
          (λ i m. has-below bs (suc (rank i)) i v m (omega arith))),
  )

accepted :
    (steps : List SubtaskPlanStep) (bs : List (List String))
    → length (flatten bs) ≡ length steps
    → check_visited steps bs ≡ ok bs
unfolding check_visited
accepted steps bs h = ground (arith, h)

-- A plan with distinct step ids is batched, if all its dependencies are steps of the plan and there is no
-- cycle, that is, the steps have ranks such that each dependency of a step ranks below the step.
pub plan_execution_batches-acyclic :
    (steps : List SubtaskPlanStep) (fuel : ℕ) (rank : String → ℕ)
    → nodup (ids steps) ≡ true
    → length steps ≤ fuel
    → all (λ s. all (Set.has (ids steps)) (deps_of s)) steps ≡ true
    → all (λ i. all (λ d. ltb (rank d) (rank i)) (deps_in steps i)) (ids steps) ≡ true
    → (bs : List (List String)) × (plan_execution_batches fuel steps ≡ some (ok bs))
unfolding build_graph
plan_execution_batches-acyclic steps fuel rank u h known falls =
    let (g, e) =
      add_steps-ok (ids steps) (record { in_degree = zero_degrees [] steps; children = [] }) steps
        known in
    let (bs, computed, complete) = levels_lem steps fuel g u h e in
    let n =
      length-flatten (ids steps) (deps_in steps) rank (λ i. deps_in-known (ids steps) steps i known)
        falls bs u complete in
    (bs, computed ∙ rw (accepted steps bs (n ∙ length-ids steps)))
