-- ===== src/Tests/Data.antt =====
-- Messages, agents and hosts for the examples.
use oacp.Prelude.{
  String, ◌≡◌, refl, ◌⊎◌, if◌then◌else◌, Bool, true, false, not, ◌||◌, Option, none, some, [], ◌∷◌,
  arith, ◌==◌, inl, inr,
}
use oacp.Js.Collation.{Collation, IsTotalPreorder}
use oacp.Protocol.Json.{null, Fields, end, field}
use oacp.Protocol.Errors.{OacpError, validation_error, err}
use oacp.Protocol.Messages.{
  OacpMessageEnvelope, sender, TaskRequestMessage, TaskResponseMessage, success,
}
use oacp.Routing.Bus.Defs.{BusOptions, RegisterOptions, register}
use oacp.Routing.Bus.Delivery.{Host}
use oacp.Routing.Bus.Reachable.{Behaves}
use oacp.Routing.Bus.Soundness.{register-IsSound}

-- `agent://a` stands before all other texts.
abbrev pub a_first : String → String → Bool
a_first a b = (a == "agent://a") || not (b == "agent://a")

abbrev pub collation : Collation
collation = record { locale_le = a_first; code_unit_le = a_first }

pub a_first-IsTotalPreorder : IsTotalPreorder a_first
a_first-IsTotalPreorder = record {
  total = λ a b. total_of (a == "agent://a") (b == "agent://a");
  trans = λ a b c h k. trans_of (a == "agent://a") (b == "agent://a") (c == "agent://a") h k;
}
  where
    total_of : (p q : Bool) → ((p || not q) ≡ true) ⊎ ((q || not p) ≡ true)
    total_of true q = inl refl
    total_of false true = inr refl
    total_of false false = inl refl

    trans_of : (p q r : Bool) → (p || not q) ≡ true → (q || not r) ≡ true → (p || not r) ≡ true
    trans_of p q r h k = ground arith

abbrev pub input : Fields
input = field "n" null end

abbrev pub envelope_of : String → String → OacpMessageEnvelope
envelope_of id from = record {
  version = "0.1";
  message_id = id;
  trace_id = "trace-1";
  from = from;
  timestamp = "2026-01-01T00:00:00Z";
}

abbrev pub request_of : String → Option String → TaskRequestMessage
request_of id to = record {
  envelope = envelope_of id "agent://c";
  capability = "sum";
  input = input;
  to = to;
  deadline_ms = none;
}

abbrev pub response_to : String → TaskResponseMessage
response_to id = record {
  envelope = envelope_of "r1" "agent://a";
  in_reply_to = id;
  status = success;
  output = some input;
  error = none;
}

abbrev pub invalid : OacpError
invalid = validation_error "INVALID_MESSAGE" "no message" []

abbrev pub with_sum : RegisterOptions
with_sum = record { capabilities = some ("sum" ∷ []); use_mailbox = some true; replace = none }

abbrev pub no_options : BusOptions
no_options = record {
  validate_on_send = none;
  record_traces = none;
  max_messages_per_trace = none;
  capability_routing_mode = none;
  registry_agent_uri = none;
}

-- A host that accepts messages from anybody but `agent://a`, and whose handlers register `agent://b`.
abbrev pub host : Host
host = record {
  collation = collation;
  validate = λ m. if sender m == "agent://a" then some invalid else none;
  parse = λ payload. err invalid;
  invoke = λ h m context b. (none, register b "agent://b" none with_sum);
}

pub host-Behaves : Behaves host
host-Behaves h m context b v = register-IsSound b "agent://b" none with_sum v
