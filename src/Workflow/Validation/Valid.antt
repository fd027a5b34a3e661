-- ===== src/Workflow/Validation/Valid.antt =====
-- Which plans are valid.
use oacp.Prelude.{
  String, ◌≡◌, ◌↔◌, refl, Bool, true, not, ◌&&◌, ◌||◌, List, [], ◌∷◌, arith, all, any, ◌==◌, eq_iff,
  is_some, inl, inr,
}
use oacp.Js.Set
use oacp.Js.Set.{has-add, has-any}
use oacp.Js.Text.{is_blank}
use oacp.Protocol.Errors.{ok, Result-cases}
use oacp.Workflow.Plan.{SubtaskPlanStep}
use oacp.Workflow.Batches.{ids, deps_of}
use oacp.Workflow.Batches.Counts.{nodup}
use oacp.Workflow.Validation.{is_step, check_deps, check_steps}

-- What one step needs by itself.
abbrev pub is_complete_step : List SubtaskPlanStep → SubtaskPlanStep → Bool
is_complete_step steps s =
    not (is_blank s.id)
    && not (is_blank s.capability)
    && (is_some s.map_input || is_some s.input)
    && all (Set.has (ids steps)) (deps_of s)

is_step-ids :
    (steps : List SubtaskPlanStep) (dep : String)
    → any (λ s. s.id == dep) steps ≡ Set.has (ids steps) dep
unfolding Set.has
is_step-ids [] dep = refl
is_step-ids (s ∷ steps) dep = ground (arith, is_step-ids steps dep)

-- Ids that were seen are ids of the plan.
abbrev pub IsSeen : List SubtaskPlanStep → List String → Type 0
IsSeen steps seen = (a : String) → Set.has seen a ≡ true → Set.has (ids steps) a ≡ true

check_deps-ok :
    (steps : List SubtaskPlanStep) (seen : List String) (id : String) (deps : List String)
    → IsSeen steps seen
    → (check_deps steps seen id deps ≡ ok tt) ↔ (all (Set.has (ids steps)) deps ≡ true)
unfolding check_deps is_step
check_deps-ok steps seen id [] v = (λ h. refl, λ h. refl)
check_deps-ok steps seen id (dep ∷ deps) v =
    let (there, back) = check_deps-ok steps seen id deps v in
    (
      λ h. ground (arith, h, there, v dep, is_step-ids steps dep),
      λ h. ground (arith, h, back, v dep, is_step-ids steps dep),
    )

-- No text of the list was seen.
abbrev pub unseen : List String → List String → Bool
unseen seen = all (λ i. not (Set.has seen i))

unseen-add :
    (seen : List String) (x : String) (xs : List String)
    → unseen (Set.add seen x) xs ≡ (not (Set.has xs x) && unseen seen xs)
unfolding Set.has
unseen-add seen x [] = refl
unseen-add seen x (y ∷ xs) =
    ground (arith, unseen-add seen x xs, has-add seen x y, eq_iff x y, eq_iff y x)

pub unseen-nil : (xs : List String) → unseen [] xs ≡ true
unfolding Set.has
unseen-nil [] = refl
unseen-nil (x ∷ xs) = unseen-nil xs

abbrev pub IsAccepted : List SubtaskPlanStep → List String → List SubtaskPlanStep → Type 0
IsAccepted steps seen rest =
    (all (is_complete_step steps) rest ≡ true)
    × (nodup (ids rest) ≡ true)
    × (unseen seen (ids rest) ≡ true)

IsSeen-add :
    (steps : List SubtaskPlanStep) (seen : List String) (x : String)
    → Set.has (ids steps) x ≡ true
    → IsSeen steps seen
    → IsSeen steps (Set.add seen x)
IsSeen-add steps seen x h v a m = ground (arith, h, m, v a, has-add seen x a, eq_iff x a)

-- The loop throws nothing exactly where every step is complete and no id occurs twice.
pub check_steps-ok :
    (steps : List SubtaskPlanStep) (seen : List String) (rest : List SubtaskPlanStep)
    → all (Set.has (ids steps)) (ids rest) ≡ true
    → IsSeen steps seen
    → (check_steps steps seen rest ≡ ok tt) ↔ IsAccepted steps seen rest
unfolding check_steps
check_steps-ok steps seen [] here v = (λ h. (refl, refl, refl), λ h. refl)
check_steps-ok steps seen (s ∷ rest) here v =
    let known : IsSeen steps (Set.add seen s.id) =
      IsSeen-add steps seen s.id (ground (arith, here)) v in
    let (there, back) =
      check_steps-ok steps (Set.add seen s.id) rest (ground (arith, here)) known in
    let (deps_there, deps_back) = check_deps-ok steps (Set.add seen s.id) s.id (deps_of s) known in
    let split = unseen-add seen s.id (ids rest) in
    (
      λ h. elim (Result-cases (check_deps steps (Set.add seen s.id) s.id (deps_of s))) [
        | inr (e, failed) ↦ absurd (ground (arith, h, failed))
        | inl (u, fine) ↦ (
          ground (arith, h, fine, there, deps_there),
          ground (arith, h, fine, there, split),
          ground (arith, h, fine, there, split),
        )
      ],
      λ (complete, distinct, new). ground (arith, complete, distinct, new, deps_back, back, split),
    )
