-- ===== src/Workflow/Batches/Spec.antt =====
-- What the batches of a plan have to satisfy.
use oacp.Prelude.{String, ◌≡◌, true, List, [], ◌∷◌, ◌++◌, all, ◌==◌, if◌then◌else◌}
use oacp.Js.Set
use oacp.Workflow.Plan.{SubtaskPlanStep}
use oacp.Workflow.Batches.{deps_of, flatten}
use oacp.Workflow.Batches.Counts.{nodup}

-- The dependencies of the steps with an id.
unfoldable pub deps_in : List SubtaskPlanStep → String → List String
deps_in [] i = []
deps_in (s ∷ steps) i = let rest = deps_in steps i in if s.id == i then deps_of s ++ rest else rest

-- Every dependency of a step is in a batch before the step's own. The list is what the batches before have.
abbrev pub IsSchedule : (String → List String) → List String → List (List String) → Type 0
IsSchedule deps done [] = Unit {0}
IsSchedule deps done (b ∷ bs) =
    (all (λ i. all (Set.has done) (deps i)) b ≡ true) × IsSchedule deps (done ++ b) bs

-- The batches hold ids once each and respect the dependencies, and what they leave out has a dependency
-- that they leave out.
pub record IsComplete (known : List String) (deps : String → List String) (done : List String)
    (bs : List (List String)) : Type 0 where
  pub ordered : IsSchedule deps done bs
  pub unique : nodup (done ++ flatten bs) ≡ true
  pub inside : all (Set.has known) (done ++ flatten bs) ≡ true
  pub closed :
      (i : String)
      → Set.has known i ≡ true
      → Set.has (done ++ flatten bs) i ≡ all (Set.has (done ++ flatten bs)) (deps i)
