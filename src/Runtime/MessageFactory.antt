-- ===== src/Runtime/MessageFactory.antt =====
-- core/src/runtime/message-factory.ts: the envelopes of new messages. What `randomUUID` and the clock yield is an argument.
use oacp.Prelude.{ℕ, String, Option, or_else}
use oacp.Protocol.Json.{Fields}
use oacp.Protocol.Messages.{
  TaskStatus, TaskErrorBody, TaskRequestMessage, TaskResponseMessage, DelegationMessage,
}

-- The identifiers and the time that a new message may take.
pub record Fresh : Type 0 where
  pub message_id : String
  pub trace_id : String
  pub now : String

abbrev pub protocol_version : String
protocol_version = "1.0"

pub record BuildTaskRequestParams : Type 0 where
  pub from : String
  pub capability : String
  pub input : Fields
  pub trace_id : Option String
  pub message_id : Option String
  pub to : Option String
  pub deadline_ms : Option ℕ

abbrev pub build_task_request : Fresh → BuildTaskRequestParams → TaskRequestMessage
build_task_request fresh p = record {
  envelope = record {
    version = protocol_version;
    message_id = or_else p.message_id fresh.message_id;
    trace_id = or_else p.trace_id fresh.trace_id;
    from = p.from;
    timestamp = fresh.now;
  };
  capability = p.capability;
  input = p.input;
  to = p.to;
  deadline_ms = p.deadline_ms;
}

pub record BuildTaskResponseParams : Type 0 where
  pub from : String
  pub in_reply_to : String
  pub trace_id : String
  pub status : TaskStatus
  pub output : Option Fields
  pub error : Option TaskErrorBody
  pub message_id : Option String

abbrev pub build_task_response : Fresh → BuildTaskResponseParams → TaskResponseMessage
build_task_response fresh p = record {
  envelope = record {
    version = protocol_version;
    message_id = or_else p.message_id fresh.message_id;
    trace_id = p.trace_id;
    from = p.from;
    timestamp = fresh.now;
  };
  in_reply_to = p.in_reply_to;
  status = p.status;
  output = p.output;
  error = p.error;
}

pub record BuildDelegationParams : Type 0 where
  pub from : String
  pub parent_message_id : String
  pub capability : String
  pub input : Fields
  pub trace_id : String
  pub to : Option String
  pub reason : Option String
  pub message_id : Option String

abbrev pub build_delegation : Fresh → BuildDelegationParams → DelegationMessage
build_delegation fresh p = record {
  envelope = record {
    version = protocol_version;
    message_id = or_else p.message_id fresh.message_id;
    trace_id = p.trace_id;
    from = p.from;
    timestamp = fresh.now;
  };
  parent_message_id = p.parent_message_id;
  capability = p.capability;
  input = p.input;
  to = p.to;
  reason = p.reason;
}
