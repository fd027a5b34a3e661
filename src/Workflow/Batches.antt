-- ===== src/Workflow/Batches.antt =====
-- `planExecutionBatches` of core/src/workflow/plan-validation.ts: topological levels of the steps.
pub mod Spec
pub mod Counts
pub mod Built
pub mod Release
pub mod Levels
pub mod Schedule
pub mod Acyclic
use oacp.Prelude.{
  ℕ, zero, suc, ◌+◌, String, Bool, false, Option, none, some, List, [], ◌∷◌, ◌++◌, map, filter,
  nat_eq, length, or_else, if◌then◌else◌,
}
use oacp.Js.Map
use oacp.Js.Map.{Map}
use oacp.Js.Set
use oacp.Protocol.Json.{template}
use oacp.Protocol.Errors.{OacpError, workflow_error, Result, ok, err}
use oacp.Protocol.Errors.Codes.{plan_invalid, plan_cycle}
use oacp.Workflow.Plan.{SubtaskPlanStep}

-- An in-degree. It falls below zero where ids are repeated, so it is an integer: `below n` is -(n + 1).
pub data Degree : Type 0 where
  at : ℕ → Degree
  below : ℕ → Degree

unfoldable pub increment : Degree → Degree
increment (at n) = at (n + 1)
increment (below zero) = at 0
increment (below (suc n)) = below n

unfoldable pub decrement : Degree → Degree
decrement (at zero) = below 0
decrement (at (suc n)) = at n
decrement (below n) = below (n + 1)

abbrev pub is_zero : Degree → Bool
is_zero (at n) = nat_eq n 0
is_zero (below n) = false

abbrev pub deps_of : SubtaskPlanStep → List String
deps_of step = or_else step.depends_on []

abbrev pub ids : List SubtaskPlanStep → List String
ids = map (λ s. s.id)

pub record Graph : Type 0 where
  pub in_degree : Map Degree
  pub children : Map (List String)

unfoldable pub degree : Map Degree → String → Degree
degree d id = or_else (Map.get d id) (at 0)

unfoldable pub children_of : Map (List String) → String → List String
children_of c id = or_else (Map.get c id) []

-- `for (const step of steps) inDegree.set(step.id, 0)`
unfoldable pub zero_degrees : Map Degree → List SubtaskPlanStep → Map Degree
zero_degrees d [] = d
zero_degrees d (s ∷ steps) = zero_degrees (Map.set d s.id (at 0)) steps

unfoldable pub add_edge : Graph → String → String → Graph
add_edge g dep id = record {
  in_degree = Map.set g.in_degree id (increment (degree g.in_degree id));
  children = Map.set g.children dep (children_of g.children dep ++ id ∷ []);
}

unfoldable pub unknown_dependency : String → String → OacpError
unknown_dependency id dep =
    workflow_error plan_invalid
      (template ("Step \"" ∷ id ∷ "\" depends on unknown step \"" ∷ dep ∷ "\"" ∷ []))
      (record {
        path = template ("/steps/" ∷ id ∷ "/dependsOn" ∷ []);
        message = template ("unknown dependency: " ∷ dep ∷ []);
      }
        ∷ [])

-- The edges from the dependencies of one step; an error at the first that is no step.
unfoldable pub add_deps : List String → Graph → String → List String → Result Graph
add_deps known g id [] = ok g
add_deps known g id (dep ∷ deps) =
    let rest = add_deps known (add_edge g dep id) id deps in
    if Set.has known dep then rest else err (unknown_dependency id dep)

unfoldable pub add_steps : List String → Graph → List SubtaskPlanStep → Result Graph
add_steps known g [] = ok g
add_steps known g (s ∷ steps) = elim (add_deps known g s.id (deps_of s)) [
  | err e ↦ err e
  | ok next ↦ add_steps known next steps
]

unfoldable pub build_graph : List SubtaskPlanStep → Result Graph
build_graph steps =
    add_steps (ids steps) (record { in_degree = zero_degrees [] steps; children = [] }) steps

-- The degrees and the next queue.
pub record Frontier : Type 0 where
  pub in_degree : Map Degree
  pub next_queue : List String

unfoldable pub release_child : Frontier → String → Frontier
release_child f child =
    let next_degree : Degree = decrement (or_else (Map.get f.in_degree child) (at 1)) in
    record {
      in_degree = Map.set f.in_degree child next_degree;
      next_queue = if is_zero next_degree then f.next_queue ++ child ∷ [] else f.next_queue;
    }

unfoldable pub release_children : Frontier → List String → Frontier
release_children f [] = f
release_children f (c ∷ cs) = release_children (release_child f c) cs

-- `for (const current of queue)`
unfoldable pub visit_queue : Map (List String) → Frontier → List String → Frontier
visit_queue children f [] = f
visit_queue children f (current ∷ queue) =
    visit_queue children (release_children f (children_of children current)) queue

-- `while (queue.length > 0)` on fuel: the batches, or nothing if the fuel ran out.
unfoldable pub levels :
    Map (List String) → ℕ → Map Degree → List String → Option (List (List String))
levels children fuel d [] = some []
levels children zero d (q ∷ queue) = none
levels children (suc fuel) d (q ∷ queue) =
    let after : Frontier =
      visit_queue children (record { in_degree = d; next_queue = [] }) (q ∷ queue) in
    elim (levels children fuel after.in_degree after.next_queue) [
      | none ↦ none
      | some rest ↦ some ((q ∷ queue) ∷ rest)
    ]

unfoldable pub flatten : List (List String) → List String
flatten [] = []
flatten (b ∷ bs) = b ++ flatten bs

unfoldable pub initial_queue : Map Degree → List SubtaskPlanStep → List String
initial_queue d steps = map (λ s. s.id) (filter (λ s. is_zero (degree d s.id)) steps)

cycle_error : OacpError
cycle_error =
    workflow_error plan_cycle "Subtask plan contains a dependency cycle"
      (record { path = "/steps"; message = "cyclic dependsOn graph" } ∷ [])

-- `visited !== steps.length` throws.
unfoldable pub check_visited :
    List SubtaskPlanStep → List (List String) → Result (List (List String))
unfolding cycle_error
check_visited steps batches =
    if nat_eq (length (flatten batches)) (length steps) then ok batches else err cycle_error

-- The outcome, where the fuel was enough.
unfoldable pub batches_of :
    List SubtaskPlanStep → Option (List (List String)) → Option (Result (List (List String)))
batches_of steps none = none
batches_of steps (some batches) = some (check_visited steps batches)

unfoldable pub plan_execution_batches :
    ℕ → List SubtaskPlanStep → Option (Result (List (List String)))
plan_execution_batches fuel steps = elim (build_graph steps) [
  | err e ↦ some (err e)
  | ok g ↦ batches_of steps (levels g.children fuel g.in_degree (initial_queue g.in_degree steps))
]
