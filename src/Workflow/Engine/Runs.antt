-- ===== src/Workflow/Engine/Runs.antt =====
-- How the runs of core/src/workflow/workflow-engine.ts end, and what their records are then.
use oacp.Js.Map
use oacp.Protocol.Errors.{Result, ok, err}
use oacp.Workflow.Steps.Sends.{Sends}
use oacp.Workflow.Dag.Resolves.{Resolves}
use oacp.Workflow.Definition.{WorkflowRunResult}
use oacp.Workflow.Engine.{WorkflowRunRecord, RunCall, final_record, pending_record}

-- The record that a run leaves: it is final where the run has a result, and still `running` where the run rejects.
abbrev pub record_after : RunCall → Result WorkflowRunResult → WorkflowRunRecord
record_after c (ok r) = final_record c r
record_after c (err e) = pending_record c
