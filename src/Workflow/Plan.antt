-- ===== src/Workflow/Plan.antt =====
-- core/src/workflow/subtask-plan-types.ts: plans, their steps and the results of execution. The
-- functions that a plan may hold are functions of the context that the code passes them, and they may throw.
use oacp.Prelude.{String, Option, List}
use oacp.Js.Map.{Map}
use oacp.Protocol.Json.{Fields}
use oacp.Protocol.Errors.{Result}
use oacp.Protocol.Messages.{TaskStatus, TaskErrorBody}
use oacp.Resilience.Policy.{TaskRecoveryPolicy}
use oacp.Resilience.Send.{TaskRecoveryAttempt}

pub record SubtaskPlanStepResult : Type 0 where
  pub step_id : String
  pub capability : String
  pub from : String
  pub status : TaskStatus
  pub output : Option Fields
  pub error : Option TaskErrorBody
  pub request_message_id : Option String
  pub recovery_attempts : Option (List TaskRecoveryAttempt)

pub record SubtaskPlanContext : Type 0 where
  pub initial_input : Fields
  pub trace_id : String
  pub step_results : Map SubtaskPlanStepResult

pub record SubtaskPlanStep : Type 0 where
  pub id : String
  pub capability : String
  pub to : Option String
  pub depends_on : Option (List String)
  pub input : Option Fields
  pub map_input : Option (SubtaskPlanContext → Result Fields)
  pub reason : Option String
  pub fallback_capabilities : Option (List String)
  pub recovery : Option TaskRecoveryPolicy

pub record SubtaskPlan : Type 0 where
  pub steps : List SubtaskPlanStep
  pub metadata : Option Fields
  pub reduce_output : Option (SubtaskPlanContext → Result Fields)
