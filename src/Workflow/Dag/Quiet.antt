-- ===== src/Workflow/Dag/Quiet.antt =====
-- Plans whose own functions, `mapInput` of a step and `reduceOutput`, do not throw.
use oacp.Prelude.{
  String, ◌≡◌, refl, Option, none, some, List, [], ◌∷◌, arith, ◌==◌, Bool-cases, inl, inr, subst,
}
use oacp.Js.Map
use oacp.Js.Map.{Map, get-set}
use oacp.Protocol.Json.{Fields}
use oacp.Protocol.Errors.{Result, ok}
use oacp.Workflow.Plan.{SubtaskPlan, SubtaskPlanStep, SubtaskPlanContext}
use oacp.Workflow.Dag.{step_by_id}

abbrev pub Returns : Option (SubtaskPlanContext → Result Fields) → Type 0
Returns none = Unit {0}
Returns (some f) = (c : SubtaskPlanContext) → (a : Fields) × (f c ≡ ok a)

abbrev pub Quiet : List SubtaskPlanStep → Type 0
Quiet [] = Unit {0}
Quiet (s ∷ steps) = Returns s.map_input × Quiet steps

pub record IsQuiet (plan : SubtaskPlan) : Type 0 where
  pub steps : Quiet plan.steps
  pub output : Returns plan.reduce_output

step_by_id-Returns :
    (m : Map SubtaskPlanStep) (steps : List SubtaskPlanStep) (i : String) (s : SubtaskPlanStep)
    → (Map.get m i ≡ some s → Returns s.map_input)
    → Quiet steps
    → Map.get (step_by_id m steps) i ≡ some s
    → Returns s.map_input
unfolding step_by_id
step_by_id-Returns m [] i s old q e = old e
step_by_id-Returns m (t ∷ steps) i s old q e = elim (Bool-cases (t.id == i)) [
  | inr other ↦
      step_by_id-Returns (Map.set m t.id t) steps i s
        (λ k. old (ground (arith, k, other, get-set m t.id i t))) q.1 e
  | inl same ↦
      step_by_id-Returns (Map.set m t.id t) steps i s
        (λ k.
          let eq : t ≡ s = ground (arith, k, same, get-set m t.id i t) in
          subst (λ x. Returns x.map_input) eq q.0)
        q.1 e
]

pub step-Returns :
    (steps : List SubtaskPlanStep) (i : String) (s : SubtaskPlanStep)
    → Quiet steps
    → Map.get (step_by_id [] steps) i ≡ some s
    → Returns s.map_input
unfolding Map.get
step-Returns steps i s q e = step_by_id-Returns [] steps i s (λ k. absurd (ground (arith, k))) q e

pub input-ok :
    (f : Option (SubtaskPlanContext → Result Fields)) (otherwise : Fields) (c : SubtaskPlanContext)
    → Returns f
    → (a : Fields) × ((elim f [ none ↦ ok otherwise | some g ↦ g c ]) ≡ ok a)
input-ok none otherwise c v = (otherwise, refl)
input-ok (some f) otherwise c v = v c
