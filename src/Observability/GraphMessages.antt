-- ===== src/Observability/GraphMessages.antt =====
-- core/src/observability/graph-messages.ts: messages made again from the nodes of a delegation graph.
pub mod Kept
use oacp.Prelude.{String, Bool, Option, none, some, List, [], map, or_else}
use oacp.Js.Collation.{Collation}
use oacp.Js.Sort.{sort}
use oacp.Protocol.Json.{end}
use oacp.Protocol.Messages.{
  OacpMessageEnvelope, success, OacpMessage, task_request, task_response, delegation,
}
use oacp.Runtime.MessageFactory.{protocol_version}
use oacp.Memory.Graph.{DelegationNode, request_node, delegation_node, response_node}
use oacp.Memory.Graph.Finish.{DelegationGraph}

-- The time of a node without one is `new Date(0)`.
abbrev pub base : DelegationNode → String → OacpMessageEnvelope
base node trace_id = record {
  version = protocol_version;
  message_id = node.message_id;
  trace_id = trace_id;
  from = node.agent_id;
  timestamp = or_else node.timestamp "1970-01-01T00:00:00.000Z";
}

unfoldable pub node_to_message : DelegationNode → String → OacpMessage
node_to_message node trace_id = elim node.kind [
  | response_node ↦ task_response (record {
    envelope = base node trace_id;
    in_reply_to = or_else node.parent_message_id "";
    status = or_else node.status success;
    output = none;
    error = none;
  })
  | delegation_node ↦ delegation (record {
    envelope = base node trace_id;
    parent_message_id = or_else node.parent_message_id "";
    capability = or_else node.capability "unknown";
    input = end;
    to = node.to;
    reason = none;
  })
  | request_node ↦ task_request (record {
    envelope = base node trace_id;
    capability = or_else node.capability "unknown";
    input = end;
    to = node.to;
    deadline_ms = none;
  })
]

module _ (c : Collation) where
  abbrev pub by_time : DelegationNode → DelegationNode → Bool
  by_time a b = c.locale_le (or_else a.timestamp "") (or_else b.timestamp "")

  unfoldable pub messages_from_delegation_graph : DelegationGraph → List OacpMessage
  messages_from_delegation_graph graph =
      map (λ node. node_to_message node graph.trace_id) (sort by_time graph.nodes)
