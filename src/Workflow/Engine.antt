-- ===== src/Workflow/Engine.antt =====
-- core/src/workflow/workflow-engine.ts and workflow-run-store.ts: the engine with the in-memory store. One
-- run is followed from its call to its end; calls that come while it waits are not interleaved with it.
pub mod Runs
use oacp.Prelude.{
  ℕ, String, Bool, Option, none, some, List, [], ◌∷◌, filter, take, ◌==◌, or_else, is_some,
}
use oacp.Js.Map
use oacp.Js.Map.{Map}
use oacp.Js.Sort.{sort}
use oacp.Js.Collation.{Collation}
use oacp.Protocol.Json.{Fields, template}
use oacp.Protocol.Errors.{OacpError, workflow_error, Result, ok, err}
use oacp.Protocol.Errors.Codes.{workflow_not_found}
use oacp.Protocol.Messages.{TaskErrorBody}
use oacp.Workflow.Plan.{SubtaskPlanStepResult}
use oacp.Workflow.Definition.{
  WorkflowDefinition, WorkflowRunResult, run_succeeded, run_failed, RunWorkflowOptions,
  validate_workflow_definition, Executor, run_workflow,
}

pub data WorkflowRunStatus : Type 0 where
  pending running completed failed : WorkflowRunStatus

pub record WorkflowRunRecord : Type 0 where
  pub run_id : String
  pub workflow_id : String
  pub trace_id : String
  pub status : WorkflowRunStatus
  pub started_at : String
  pub completed_at : Option String
  pub input : Fields
  pub output : Option Fields
  pub failed_step_id : Option String
  pub steps : Option (List SubtaskPlanStepResult)
  pub error : Option TaskErrorBody

pub record WorkflowEngine : Type 0 where
  pub definitions : Map WorkflowDefinition
  pub runs : Map WorkflowRunRecord
  pub default_timeout_ms : ℕ

create_engine : Option ℕ → WorkflowEngine
create_engine timeout = record {
  definitions = [];
  runs = [];
  default_timeout_ms = or_else timeout 30000;
}

registered_with :
    WorkflowEngine → WorkflowDefinition → Result (Unit {0}) → Result (Unit {0}) × WorkflowEngine
registered_with engine d (err e) = (err e, engine)
registered_with engine d (ok u) =
    (ok u, record engine { definitions = Map.set engine.definitions d.id d })

-- A definition that is not valid is refused.
register : WorkflowEngine → WorkflowDefinition → Option (Result (Unit {0}) × WorkflowEngine)
unfolding registered_with
register engine d = elim (validate_workflow_definition d) [
  | none ↦ none
  | some r ↦ some (registered_with engine d r)
]

unregister : WorkflowEngine → String → Bool × WorkflowEngine
unregister engine id = (
  is_some (Map.get engine.definitions id),
  record engine { definitions = Map.delete engine.definitions id },
)

get_definition : WorkflowEngine → String → Option WorkflowDefinition
get_definition engine id = Map.get engine.definitions id

list_definitions : WorkflowEngine → List WorkflowDefinition
list_definitions engine = Map.values engine.definitions

unfoldable pub save : WorkflowEngine → WorkflowRunRecord → WorkflowEngine
save engine r = record engine { runs = Map.set engine.runs r.run_id r }

unfoldable pub get_run : WorkflowEngine → String → Option WorkflowRunRecord
get_run engine id = Map.get engine.runs id

list_runs : WorkflowEngine → String → List WorkflowRunRecord
list_runs engine workflow_id = filter (λ r. r.workflow_id == workflow_id) (Map.values engine.runs)

list_recent_runs : Collation → WorkflowEngine → Option ℕ → List WorkflowRunRecord
list_recent_runs c engine limit =
    take (or_else limit 50)
      (sort (λ a b. c.locale_le b.started_at a.started_at) (Map.values engine.runs))

-- `clear` of the run store.
abbrev clear_runs : WorkflowEngine → WorkflowEngine
clear_runs engine = record engine { runs = [] }

unfoldable pub unknown_workflow : String → OacpError
unknown_workflow id =
    workflow_error workflow_not_found (template ("Workflow \"" ∷ id ∷ "\" is not registered" ∷ []))
      (record { path = "/workflowId"; message = "unknown workflow id" } ∷ [])

-- What a run is called with, with what the clock and `createTraceId` yield.
pub record RunCall : Type 0 where
  pub workflow_id : String
  pub input : Fields
  pub options : RunWorkflowOptions
  pub fresh_run : String
  pub fresh_trace : String
  pub started_at : String
  pub completed_at : String

abbrev pub run_id_of : RunCall → String
run_id_of c = or_else c.options.run_id c.fresh_run

abbrev pub trace_id_of : RunCall → String
trace_id_of c = or_else c.options.trace_id c.fresh_trace

abbrev pub pending_record : RunCall → WorkflowRunRecord
pending_record c = record {
  run_id = run_id_of c;
  workflow_id = c.workflow_id;
  trace_id = trace_id_of c;
  status = running;
  started_at = c.started_at;
  completed_at = none;
  input = c.input;
  output = none;
  failed_step_id = none;
  steps = none;
  error = none;
}

unfoldable pub final_record : RunCall → WorkflowRunResult → WorkflowRunRecord
final_record c (run_failed run_id trace_id workflow_id d failed_step_id steps failure) =
    record (pending_record c) {
      trace_id = trace_id;
      status = failed;
      completed_at = some c.completed_at;
      failed_step_id = some failed_step_id;
      steps = some steps;
      error = some failure;
    }
final_record c (run_succeeded run_id trace_id workflow_id d steps output) =
    record (pending_record c) {
      trace_id = trace_id;
      status = completed;
      completed_at = some c.completed_at;
      steps = some steps;
      output = output;
    }

-- An error leaves the record of the run as it is.
unfoldable pub conclude_run : RunCall → WorkflowEngine → Result WorkflowRunResult → WorkflowEngine
conclude_run c engine (err e) = engine
conclude_run c engine (ok r) = save engine (final_record c r)

abbrev pub run_options : RunCall → WorkflowEngine → RunWorkflowOptions
run_options c engine = record c.options {
  run_id = some (run_id_of c);
  trace_id = some (trace_id_of c);
  timeout_ms = some (or_else c.options.timeout_ms engine.default_timeout_ms);
}

module _ {W : Type 0} (executor : Executor W) where
  unfoldable pub run_registered :
      RunCall
      → WorkflowEngine
      → WorkflowDefinition
      → W
      → Option (Result WorkflowRunResult × WorkflowEngine × W)
  run_registered c engine d w =
      let started : WorkflowEngine = save engine (pending_record c) in
      elim (run_workflow executor d c.input (run_options c engine) (run_id_of c) (trace_id_of c)
        w) [ none ↦ none | some (r, after) ↦ some (r, conclude_run c started r, after) ]

  unfoldable pub run :
      RunCall → WorkflowEngine → W → Option (Result WorkflowRunResult × WorkflowEngine × W)
  run c engine w = elim (Map.get engine.definitions c.workflow_id) [
    | none ↦ some (err (unknown_workflow c.workflow_id), engine, w)
    | some d ↦ run_registered c engine d w
  ]
