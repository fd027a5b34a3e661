-- ===== src/Routing/TraceStore.antt =====
-- core/src/routing/trace-store.ts and core/src/observability/trace-list-status.ts: the index of the
-- messages by `trace_id` and by `message_id`. `localeCompare` is a parameter.
pub mod Listing
pub mod Window
use oacp.Prelude.{
  ℕ, String, Option, none, some, List, [], ◌∷◌, ◌++◌, ltb, length, drop, or_else, if◌then◌else◌,
}
use oacp.Js
use oacp.Js.Map.{Map}
use oacp.Protocol.Messages.{OacpMessage, message_id, trace_id, timestamp}

pub record TraceStore : Type 0 where
  pub max_messages_per_trace : ℕ
  pub traces : Map (List OacpMessage)
  pub message_index : Map OacpMessage

unfoldable pub init : ℕ → TraceStore
init n = record { max_messages_per_trace = n; traces = []; message_index = [] }

-- `push`, and `shift` when the list has grown past the bound.
unfoldable pub push_bounded : ℕ → List OacpMessage → OacpMessage → List OacpMessage
push_bounded n ms m =
    let pushed = ms ++ m ∷ [] in if ltb n (length pushed) then drop 1 pushed else pushed

unfoldable pub get_messages_for_trace : TraceStore → String → List OacpMessage
get_messages_for_trace s t = or_else (Js.Map.get s.traces t) []

unfoldable pub record_message : TraceStore → OacpMessage → TraceStore
unfolding push_bounded get_messages_for_trace
record_message s m = record s {
  message_index = Js.Map.set s.message_index (message_id m) m;
  traces =
      Js.Map.set s.traces (trace_id m)
        (push_bounded s.max_messages_per_trace (get_messages_for_trace s (trace_id m)) m);
}

unfoldable pub get_message_by_id : TraceStore → String → Option OacpMessage
get_message_by_id s i = Js.Map.get s.message_index i

pub record TraceRecord : Type 0 where
  pub trace_id : String
  pub started_at : String
  pub messages : List OacpMessage
  pub message_count : ℕ

trace_record : String → List OacpMessage → Option TraceRecord
trace_record t [] = none
trace_record t (m ∷ ms) = some (record {
  trace_id = t;
  started_at = timestamp m;
  messages = m ∷ ms;
  message_count = length (m ∷ ms);
})

pub get_trace : TraceStore → String → Option TraceRecord
unfolding trace_record
get_trace s t = trace_record t (get_messages_for_trace s t)

pub trace_count : TraceStore → ℕ
trace_count s = Js.Map.size s.traces

pub clear : TraceStore → TraceStore
clear s = record s { traces = []; message_index = [] }
