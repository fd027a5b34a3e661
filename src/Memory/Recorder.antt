-- ===== src/Memory/Recorder.antt =====
-- core/src/memory/task-recorder.ts: which entries messages are recorded as.
use oacp.Prelude.{ℕ, String, Option, none, some}
use oacp.Protocol.Json.{Json, text, number, natural, object, Fields, end, field, optional_field}
use oacp.Protocol.Errors.{Result, ok, and_then}
use oacp.Protocol.Messages.{
  OacpMessage, task_request, task_response, delegation, capability_query, TaskRequestMessage,
  TaskResponseMessage, DelegationMessage, TaskErrorBody,
}
use oacp.Memory.Types.{MemoryEntryKind, MemoryEntryInput, MemoryEntry}
use oacp.Memory.Scope.{resolve_scope}
use oacp.Memory.Store.{MemoryStore, append}

abbrev pub as_text : Option String → Option Json
as_text none = none
as_text (some s) = some (text s)

abbrev pub as_object : Option Fields → Option Json
as_object none = none
as_object (some o) = some (object o)

as_number : Option ℕ → Option Json
as_number none = none
as_number (some n) = some (number (natural n))

as_error : Option TaskErrorBody → Option Json
as_error none = none
as_error (some e) = some (
    object (
      field "code" (text e.code)
        (field "message" (text e.message) (optional_field "details" (as_object e.details) end))))

-- The scope is set once it is resolved.
abbrev pub scoped : String → MemoryEntryInput → MemoryEntryInput
scoped scope input = record input { scope = scope }

unfoldable pub request_entry : TaskRequestMessage → Option String → MemoryEntryInput
unfolding as_number
request_entry m parent = record {
  scope = "";
  trace_id = m.trace_id;
  message_id = some m.message_id;
  agent_id = m.from;
  kind = MemoryEntryKind.task_request;
  capability = some m.capability;
  status = none;
  payload = field "input" (object m.input) (
      optional_field "to" (as_text m.to) (
        optional_field "deadline_ms" (as_number m.deadline_ms)
          (optional_field "parent_message_id" (as_text parent) end)));
  metadata = none;
}

abbrev pub response_kind : Option Fields → MemoryEntryKind
response_kind none = MemoryEntryKind.task_response
response_kind (some o) = MemoryEntryKind.output

unfoldable pub response_entry : TaskResponseMessage → MemoryEntryInput
unfolding as_error
response_entry m = record {
  scope = "";
  trace_id = m.trace_id;
  message_id = some m.message_id;
  agent_id = m.from;
  kind = response_kind m.output;
  capability = none;
  status = some m.status;
  payload = field "in_reply_to" (text m.in_reply_to) (
      optional_field "output" (as_object m.output) (optional_field "error" (as_error m.error) end));
  metadata = none;
}

unfoldable pub delegation_entry : DelegationMessage → MemoryEntryInput
delegation_entry m = record {
  scope = "";
  trace_id = m.trace_id;
  message_id = some m.message_id;
  agent_id = m.from;
  kind = MemoryEntryKind.delegation;
  capability = some m.capability;
  status = none;
  payload = field "parent_message_id" (text m.parent_message_id) (
      field "input" (object m.input)
        (optional_field "to" (as_text m.to) (optional_field "reason" (as_text m.reason) end)));
  metadata = none;
}

-- What is recorded for a message; a capability query is not recorded.
unfoldable pub entry_of : OacpMessage → Option String → Option MemoryEntryInput
entry_of (task_request m) parent = some (request_entry m parent)
entry_of (task_response m) parent = some (response_entry m)
entry_of (delegation m) parent = some (delegation_entry m)
entry_of (capability_query m) parent = none

pub record RecordDecisionParams : Type 0 where
  pub scope : Option String
  pub trace_id : String
  pub agent_id : String
  pub decision : String
  pub metadata : Option Fields

decision_entry : RecordDecisionParams → MemoryEntryInput
decision_entry p = record {
  scope = "";
  trace_id = p.trace_id;
  message_id = none;
  agent_id = p.agent_id;
  kind = MemoryEntryKind.decision;
  capability = none;
  status = none;
  payload = field "decision" (text p.decision) end;
  metadata = p.metadata;
}

-- The identifier and the time that the store would give to an entry.
pub record Stamp : Type 0 where
  pub id : String
  pub now : String

module _ (to_lower_case : String → String) where
  -- The scope is resolved first, and the entry appended.
  unfoldable pub record_entry :
      Stamp → Option String → MemoryEntryInput → MemoryStore → Result (MemoryEntry × MemoryStore)
  record_entry stamp scope input s =
      and_then (resolve_scope to_lower_case input.trace_id scope)
        (λ resolved. append stamp.id stamp.now (scoped resolved input) s)

  record_optional :
      Stamp
      → Option String
      → Option MemoryEntryInput
      → MemoryStore
      → Result (Option MemoryEntry × MemoryStore)
  record_optional stamp scope none s = ok (none, s)
  record_optional stamp scope (some input) s =
      and_then (record_entry stamp scope input s) (λ (entry, next). ok (some entry, next))

  -- `recordMessage`, and `recordTaskRequest` where a parent is given.
  unfoldable pub record_message :
      Stamp
      → Option String
      → Option String
      → OacpMessage
      → MemoryStore
      → Result (Option MemoryEntry × MemoryStore)
  unfolding record_optional
  record_message stamp scope parent m s = record_optional stamp scope (entry_of m parent) s

  pub record_decision :
      Stamp → RecordDecisionParams → MemoryStore → Result (MemoryEntry × MemoryStore)
  unfolding decision_entry
  record_decision stamp p s = record_entry stamp p.scope (decision_entry p) s
