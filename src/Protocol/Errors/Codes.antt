-- ===== src/Protocol/Errors/Codes.antt =====
-- The machine-readable codes: ROUTING_ERROR_CODES, RUNTIME_ERROR_CODES and WORKFLOW_ERROR_CODES.
use oacp.Prelude.{String}

-- ROUTING_ERROR_CODES
abbrev pub no_recipient : String
no_recipient = "ROUTING_NO_RECIPIENT"

abbrev pub agent_not_registered : String
agent_not_registered = "ROUTING_AGENT_NOT_REGISTERED"

abbrev pub delivery_failed : String
delivery_failed = "ROUTING_DELIVERY_FAILED"

abbrev pub bus_closed : String
bus_closed = "ROUTING_BUS_CLOSED"

-- RUNTIME_ERROR_CODES
abbrev pub response_timeout : String
response_timeout = "RUNTIME_RESPONSE_TIMEOUT"

abbrev pub send_failed : String
send_failed = "RUNTIME_SEND_FAILED"

abbrev pub task_handler_failed : String
task_handler_failed = "RUNTIME_TASK_HANDLER_FAILED"

abbrev pub recovery_exhausted : String
recovery_exhausted = "RUNTIME_RECOVERY_EXHAUSTED"

abbrev pub not_started : String
not_started = "RUNTIME_NOT_STARTED"

abbrev pub already_running : String
already_running = "RUNTIME_ALREADY_RUNNING"

abbrev pub already_stopped : String
already_stopped = "RUNTIME_ALREADY_STOPPED"

abbrev pub invalid_task_message : String
invalid_task_message = "RUNTIME_INVALID_TASK_MESSAGE"

-- WORKFLOW_ERROR_CODES
abbrev pub plan_invalid : String
plan_invalid = "WORKFLOW_PLAN_INVALID"

abbrev pub plan_cycle : String
plan_cycle = "WORKFLOW_PLAN_CYCLE"

abbrev pub step_failed : String
step_failed = "WORKFLOW_STEP_FAILED"

abbrev pub planner_failed : String
planner_failed = "WORKFLOW_PLANNER_FAILED"

abbrev pub workflow_not_found : String
workflow_not_found = "WORKFLOW_NOT_FOUND"

-- MEMORY_ERROR_CODES
abbrev pub invalid_scope : String
invalid_scope = "INVALID_SCOPE"

abbrev pub store_closed : String
store_closed = "STORE_CLOSED"

-- VALIDATION_ERROR_CODES
abbrev pub duplicate_capability : String
duplicate_capability = "DUPLICATE_CAPABILITY"

abbrev pub identity_capability_mismatch : String
identity_capability_mismatch = "IDENTITY_CAPABILITY_MISMATCH"

abbrev pub permission_denied : String
permission_denied = "PERMISSION_DENIED"
