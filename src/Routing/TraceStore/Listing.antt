-- ===== src/Routing/TraceStore/Listing.antt =====
-- `TraceStore.listTraces` and `inferTraceListStatusFromMessages`.
use oacp.Prelude.{
  ℕ, String, Bool, Option, none, some, List, [], ◌∷◌, ◌++◌, length, drop, take, last?, or_else,
}
use oacp.Js.Set
use oacp.Js.Set.{Set}
use oacp.Js.Sort.{sort}
use oacp.Js.Collation.{Collation}
use oacp.Protocol.Messages.{
  OacpMessage, task_request, task_response, delegation, sender, timestamp, type_tag, success, error,
}
use oacp.Routing.TraceStore.{TraceStore}

pub data TraceListStatus : Type 0 where
  running completed failed : TraceListStatus

pub record TraceListStatusResult : Type 0 where
  pub status : TraceListStatus
  pub completed_at : Option String

pub record TraceListEntry : Type 0 where
  pub trace_id : String
  pub started_at : String
  pub last_activity_at : String
  pub message_count : ℕ
  pub message_types : List String
  pub agents : List String
  pub status : TraceListStatus
  pub completed_at : Option String

pub record ListTracesOptions : Type 0 where
  pub limit : Option ℕ
  pub offset : Option ℕ

still_running : TraceListStatusResult
still_running = record { status = running; completed_at = none }

-- The status after the last message.
status_of_last : Option OacpMessage → TraceListStatusResult
unfolding still_running
status_of_last (some (task_response m)) = elim m.status [
  | error ↦ record { status = failed; completed_at = some m.timestamp }
  | success ↦ record { status = completed; completed_at = some m.timestamp }
]
status_of_last _ = still_running

-- The agents that one message names.
agents_of : OacpMessage → List String
agents_of (task_request m) = elim m.to [ none ↦ m.from ∷ [] | some a ↦ m.from ∷ a ∷ [] ]
agents_of (delegation m) = elim m.to [ none ↦ m.from ∷ [] | some a ↦ m.from ∷ a ∷ [] ]
agents_of m = sender m ∷ []

collect_types : Set → List OacpMessage → Set
collect_types s [] = s
collect_types s (m ∷ ms) = collect_types (Set.add s (type_tag m)) ms

collect_agents : Set → List OacpMessage → Set
unfolding agents_of
collect_agents s [] = s
collect_agents s (m ∷ ms) = collect_agents (Set.add_all s (agents_of m)) ms

module _ (c : Collation) where
  by_timestamp : OacpMessage → OacpMessage → Bool
  by_timestamp a b = c.locale_le (timestamp a) (timestamp b)

  unfoldable pub infer_status : List OacpMessage → TraceListStatusResult
  unfolding status_of_last by_timestamp
  infer_status ms = status_of_last (last? (sort by_timestamp ms))

  -- The row of one trace, and none for a trace without messages.
  entry : String → List OacpMessage → List TraceListEntry
  unfolding infer_status collect_types collect_agents
  entry t [] = []
  entry t (m ∷ ms) =
      let lifecycle = infer_status (m ∷ ms) in
      record {
        trace_id = t;
        started_at = timestamp m;
        last_activity_at = timestamp (or_else (last? (m ∷ ms)) m);
        message_count = length (m ∷ ms);
        message_types = sort c.code_unit_le (collect_types [] (m ∷ ms));
        agents = sort c.code_unit_le (collect_agents [] (m ∷ ms));
        status = lifecycle.status;
        completed_at = lifecycle.completed_at;
      }
      ∷ []

  entries : List (String × List OacpMessage) → List TraceListEntry
  unfolding entry
  entries [] = []
  entries ((t, ms) ∷ rest) = entry t ms ++ entries rest

  -- The most recent activity comes first.
  most_recent : TraceListEntry → TraceListEntry → Bool
  most_recent a b = c.locale_le b.last_activity_at a.last_activity_at

  pub list_traces : TraceStore → ListTracesOptions → List TraceListEntry
  unfolding entries most_recent
  list_traces s options =
      take (or_else options.limit 50)
        (drop (or_else options.offset 0) (sort most_recent (entries s.traces)))
