-- ===== src/Workflow/Steps.antt =====
-- core/src/resilience/step-executor.ts: the execution of one step of a plan, with recovery where a policy
-- is given.
pub mod Trail
pub mod Sends
use oacp.Prelude.{ℕ, String, Option, none, some, List, or_else}
use oacp.Protocol.Json.{Fields}
use oacp.Protocol.Errors.{OacpError, Result, ok, err, map_result}
use oacp.Protocol.Messages.{
  TaskStatus, success, error, TaskErrorBody, TaskRequestMessage, TaskResponseMessage,
}
use oacp.Resilience.Policy.{TaskRecoveryPolicy, merge_recovery_policies}
use oacp.Resilience.Send.{
  SendTaskParams, SendTaskOutcome, delivered, undelivered, ResilientSendTaskOutcome, recovered,
  exhausted, RuntimeHandle, send_task_with_recovery,
}
use oacp.Workflow.Plan.{SubtaskPlanStep, SubtaskPlanStepResult}

pub record StepTaskContext (W : Type 0) : Type 0 where
  pub agent_id : String
  pub trace_id : String
  pub runtime : RuntimeHandle W

pub record StepTaskExecutionOptions : Type 0 where
  pub timeout_ms : Option ℕ
  pub parent_message_id : Option String
  pub recovery : Option TaskRecoveryPolicy

unfoldable pub error_body : OacpError → TaskErrorBody
error_body e = record { code = e.code; message = e.message; details = none }

-- `response?.status ?? 'success'`, and the other fields of a response that may be absent.
unfoldable pub status_of : Option TaskResponseMessage → TaskStatus
status_of none = success
status_of (some r) = r.status

unfoldable pub sender_of : Option TaskResponseMessage → String → String
sender_of none otherwise = otherwise
sender_of (some r) otherwise = r.from

unfoldable pub output_of : Option TaskResponseMessage → Option Fields
output_of none = none
output_of (some r) = r.output

unfoldable pub error_of : Option TaskResponseMessage → Option TaskErrorBody
error_of none = none
error_of (some r) = r.error

unfoldable pub direct_result : String → SubtaskPlanStep → SendTaskOutcome → SubtaskPlanStepResult
unfolding error_body status_of sender_of output_of error_of
direct_result agent step (undelivered e) = record {
  step_id = step.id;
  capability = step.capability;
  from = agent;
  status = error;
  output = none;
  error = some (error_body e);
  request_message_id = none;
  recovery_attempts = none;
}
direct_result agent step (delivered request response) = record {
  step_id = step.id;
  capability = step.capability;
  from = sender_of response "unknown";
  status = status_of response;
  output = output_of response;
  error = error_of response;
  request_message_id = some request.message_id;
  recovery_attempts = none;
}

unfoldable pub recovery_result :
    String → SubtaskPlanStep → ResilientSendTaskOutcome → SubtaskPlanStepResult
unfolding error_body status_of sender_of output_of error_of
recovery_result agent step (exhausted e attempts) = record {
  step_id = step.id;
  capability = step.capability;
  from = agent;
  status = error;
  output = none;
  error = some (error_body e);
  request_message_id = none;
  recovery_attempts = some attempts;
}
recovery_result agent step (recovered request response attempts selected capability) = record {
  step_id = step.id;
  capability = capability;
  from = sender_of response selected;
  status = status_of response;
  output = output_of response;
  error = error_of response;
  request_message_id = some request.message_id;
  recovery_attempts = some attempts;
}

module _ {W : Type 0} (ctx : StepTaskContext W) where
  task_params : SubtaskPlanStep → Fields → StepTaskExecutionOptions → SendTaskParams
  task_params step input options = record {
    capability = step.capability;
    input = input;
    to = step.to;
    deadline_ms = none;
    trace_id = some ctx.trace_id;
    parent_message_id = options.parent_message_id;
    wait_for_response = none;
    timeout_ms = some (or_else options.timeout_ms 30000);
  }

  unfoldable pub execute_step_task :
      SubtaskPlanStep → Fields → StepTaskExecutionOptions → W → Result SubtaskPlanStepResult × W
  unfolding task_params
  execute_step_task step input options w =
      elim (merge_recovery_policies options.recovery step.recovery) [
        | none ↦
            let (outcome, after) = ctx.runtime.send_sub_task (task_params step input options) w in
            (map_result (direct_result ctx.agent_id step) outcome, after)
        | some policy ↦
            let (outcome, after) =
              send_task_with_recovery ctx.runtime (task_params step input options)
                (record {
                  policy = some policy;
                  step_fallback_capabilities = step.fallback_capabilities;
                })
                w in
            (map_result (recovery_result ctx.agent_id step) outcome, after)
      ]
