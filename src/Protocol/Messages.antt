-- ===== src/Protocol/Messages.antt =====
-- core/src/protocol/message-schemas.ts and message-types.ts: the four kinds of messages. The `type`
-- tag of the source is the constructor of `OacpMessage`.
use oacp.Prelude.{String, ℕ, Option}
use oacp.Protocol.Json.{Fields}

pub record OacpMessageEnvelope : Type 0 where
  pub version : String
  pub message_id : String
  pub trace_id : String
  pub from : String
  pub timestamp : String

pub data TaskStatus : Type 0 where
  success error : TaskStatus

pub record TaskErrorBody : Type 0 where
  pub code : String
  pub message : String
  pub details : Option Fields

pub record TaskRequestMessage : Type 0 where
  pub envelope : OacpMessageEnvelope
  pub open envelope use *
  pub capability : String
  pub input : Fields
  pub to : Option String
  pub deadline_ms : Option ℕ

pub record TaskResponseMessage : Type 0 where
  pub envelope : OacpMessageEnvelope
  pub open envelope use *
  pub in_reply_to : String
  pub status : TaskStatus
  pub output : Option Fields
  pub error : Option TaskErrorBody

pub record DelegationMessage : Type 0 where
  pub envelope : OacpMessageEnvelope
  pub open envelope use *
  pub parent_message_id : String
  pub capability : String
  pub input : Fields
  pub to : Option String
  pub reason : Option String

pub record CapabilityQueryMessage : Type 0 where
  pub envelope : OacpMessageEnvelope
  pub open envelope use *
  pub capability : String
  pub limit : Option ℕ

pub data OacpMessage : Type 0 where
  task_request : TaskRequestMessage → OacpMessage
  task_response : TaskResponseMessage → OacpMessage
  delegation : DelegationMessage → OacpMessage
  capability_query : CapabilityQueryMessage → OacpMessage

abbrev pub envelope : OacpMessage → OacpMessageEnvelope
envelope (task_request m) = m.envelope
envelope (task_response m) = m.envelope
envelope (delegation m) = m.envelope
envelope (capability_query m) = m.envelope

abbrev pub message_id : OacpMessage → String
message_id m = (envelope m).message_id

abbrev pub trace_id : OacpMessage → String
trace_id m = (envelope m).trace_id

abbrev pub sender : OacpMessage → String
sender m = (envelope m).from

abbrev pub timestamp : OacpMessage → String
timestamp m = (envelope m).timestamp

-- The `type` tag as a text.
abbrev pub type_tag : OacpMessage → String
type_tag (task_request m) = "task_request"
type_tag (task_response m) = "task_response"
type_tag (delegation m) = "delegation"
type_tag (capability_query m) = "capability_query"
