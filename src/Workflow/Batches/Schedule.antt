-- ===== src/Workflow/Batches/Schedule.antt =====
-- The batches of a plan are a schedule of its steps.
use oacp.Prelude.{
  ℕ, ◌≤◌, String, ◌≡◌, refl, sym, ◌∙◌, true, ◌&&◌, some, List, [], ◌∷◌, ◌++◌, arith, all, length,
  eq_iff, Bool-cases, inl, inr,
}
use mathlib.Core.List.{append-nil}
use oacp.Js.Map.{Map}
use oacp.Js.Set
use oacp.Js.Set.{has-append, all-of_has, has-of_all}
use oacp.Protocol.Errors.{OacpError, Result, ok, err, Result-cases}
use oacp.Workflow.Plan.{SubtaskPlanStep}
use oacp.Workflow.Batches.{
  Degree, is_zero, degree, ids, Graph, build_graph, initial_queue, flatten, check_visited,
  batches_of, plan_execution_batches,
}
use oacp.Workflow.Batches.Counts.{missing, missing-nil, nodup, length-nodup}
use oacp.Workflow.Batches.Spec.{deps_in, IsSchedule, IsComplete}
use oacp.Workflow.Batches.Built.{build_graph-IsBuilt}
use oacp.Workflow.Batches.Release.{IsTracked}
use oacp.Workflow.Batches.Levels.{levels-IsComplete}

has-initial_queue :
    (d : Map Degree) (steps : List SubtaskPlanStep) (i : String)
    → Set.has (initial_queue d steps) i ≡ (Set.has (ids steps) i && is_zero (degree d i))
unfolding initial_queue Set.has
has-initial_queue d [] i = refl
has-initial_queue d (s ∷ steps) i = ground (arith, has-initial_queue d steps i, eq_iff s.id i)

initial_queue-nodup :
    (d : Map Degree) (steps : List SubtaskPlanStep)
    → nodup (ids steps) ≡ true
    → nodup (initial_queue d steps) ≡ true
unfolding initial_queue
initial_queue-nodup d [] h = refl
initial_queue-nodup d (s ∷ steps) h =
    ground (arith, h, initial_queue-nodup d steps, has-initial_queue d steps s.id)

initial-IsTracked :
    (steps : List SubtaskPlanStep) (g : Graph)
    → nodup (ids steps) ≡ true
    → build_graph steps ≡ ok g
    → IsTracked
        (ids steps)
        ([] ++ initial_queue g.in_degree steps)
        (λ i. missing [] (deps_in steps i))
        (record { in_degree = g.in_degree; next_queue = [] })
unfolding degree
initial-IsTracked steps g u h =
    let built = build_graph-IsBuilt steps g h in
    record {
      degrees = λ i e. ground (arith, built.degrees i e, missing-nil (deps_in steps i));
      queued = λ i e. ground (
        arith,
        built.degrees i e,
        missing-nil (deps_in steps i),
        has-initial_queue g.in_degree steps i,
        append-nil (initial_queue g.in_degree steps),
      );
      unique = rw append-nil (initial_queue-nodup g.in_degree steps u);
      inside = rw append-nil (
          all-of_has (Set.has (ids steps)) (initial_queue g.in_degree steps)
            (λ a m. ground (arith, m, has-initial_queue g.in_degree steps a)));
    }

pub length-ids : (steps : List SubtaskPlanStep) → length (ids steps) ≡ length steps
length-ids [] = refl
length-ids (s ∷ steps) = ground (arith, length-ids steps)

-- The levels of an accepted graph.
pub levels_lem :
    (steps : List SubtaskPlanStep) (fuel : ℕ) (g : Graph)
    → nodup (ids steps) ≡ true
    → length steps ≤ fuel
    → build_graph steps ≡ ok g
    → (bs : List (List String)) × (plan_execution_batches fuel steps
        ≡ some (check_visited steps bs))
      × IsComplete (ids steps) (deps_in steps) [] bs
unfolding plan_execution_batches batches_of
levels_lem steps fuel g u h e =
    let built = build_graph-IsBuilt steps g e in
    let (bs, computed, complete) =
      levels-IsComplete (ids steps) (deps_in steps) g.children built.edges built.inside fuel []
        (initial_queue g.in_degree steps) g.in_degree (initial-IsTracked steps g u e)
        (omega (arith, h, length-ids steps)) in
    (bs, rw (e, plan_execution_batches) (rw (computed, batches_of)), complete)

refused :
    (steps : List SubtaskPlanStep) (fuel : ℕ) (e : OacpError)
    → build_graph steps ≡ err e
    → plan_execution_batches fuel steps ≡ some (err e)
unfolding plan_execution_batches
refused steps fuel e h = rw (h, plan_execution_batches)

-- The batching of a plan whose step ids are distinct ends, in a result or in an error, after at most as
-- many levels as there are steps.
pub plan_execution_batches-total :
    (steps : List SubtaskPlanStep) (fuel : ℕ)
    → nodup (ids steps) ≡ true
    → length steps ≤ fuel
    → (r : Result (List (List String))) × (plan_execution_batches fuel steps ≡ some r)
plan_execution_batches-total steps fuel u h = elim (Result-cases (build_graph steps)) [
  | inl (g, e) ↦ let (bs, computed, complete) = levels_lem steps fuel g u h e in (_, computed)
  | inr (e, failed) ↦ (err e, refused steps fuel e failed)
]

check_visited-ok :
    (steps : List SubtaskPlanStep) (bs bs' : List (List String))
    → check_visited steps bs ≡ ok bs'
    → (bs ≡ bs') × (length (flatten bs) ≡ length steps)
unfolding check_visited
check_visited-ok steps bs bs' h = (ground (arith, h), ground (arith, h))

some-eq : {A : Type 0} (x y : A) → (some x ≡ some y) → x ≡ y
some-eq x y e = cc

-- As many distinct texts as those that they are among are all of them.
has-full :
    (xs ys : List String) (a : String)
    → nodup xs ≡ true
    → all (Set.has ys) xs ≡ true
    → length ys ≤ length xs
    → Set.has ys a ≡ true
    → Set.has xs a ≡ true
has-full xs ys a u v h m = elim (Bool-cases (Set.has xs a)) [
  | inl there ↦ there
  | inr absent ↦ absurd (ground (arith, h, m, u, v, absent, length-nodup (a ∷ xs) ys))
]

has-flatten :
    (steps : List SubtaskPlanStep) (bs : List (List String)) (i : String)
    → IsComplete (ids steps) (deps_in steps) [] bs
    → length (flatten bs) ≡ length steps
    → Set.has (flatten bs) i ≡ Set.has (ids steps) i
has-flatten steps bs i v n = ground (
  arith,
  has-full (flatten bs) (ids steps) i v.unique v.inside (omega (arith, n, length-ids steps)),
  has-of_all (Set.has (ids steps)) (flatten bs) i v.inside,
)

-- If a plan with distinct step ids is batched, then every dependency of a step is in a batch before the
-- step's own, and the batches hold each step id exactly once and nothing else.
pub plan_execution_batches-IsSchedule :
    (steps : List SubtaskPlanStep) (fuel : ℕ) (bs : List (List String))
    → nodup (ids steps) ≡ true
    → length steps ≤ fuel
    → plan_execution_batches fuel steps ≡ some (ok bs)
    → IsSchedule (deps_in steps) [] bs
      × (nodup (flatten bs) ≡ true)
      × ((i : String) → Set.has (flatten bs) i ≡ Set.has (ids steps) i)
plan_execution_batches-IsSchedule steps fuel bs u h k = elim (Result-cases (build_graph steps)) [
  | inr (e, failed) ↦ absurd (ground (arith, k, refused steps fuel e failed))
  | inl (g, e) ↦
      let (bs', computed, complete) = levels_lem steps fuel g u h e in
      let (same, n) =
        check_visited-ok steps bs' bs
          (some-eq (check_visited steps bs') (ok bs) (sym computed ∙ k)) in
      rw (← same) (complete.ordered, complete.unique, λ i. has-flatten steps bs' i complete n)
]
