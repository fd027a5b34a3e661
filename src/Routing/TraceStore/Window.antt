-- ===== src/Routing/TraceStore/Window.antt =====
-- What the trace store holds after any sequence of recorded messages.
use oacp.Prelude.{
  ℕ, suc, ◌-◌, String, ◌≡◌, refl, ◌∙◌, some, List, [], ◌∷◌, ◌++◌, arith, ◌==◌, eq_iff, length,
  length-append, length-drop, drop-append, drop_one-drop, take_last, filter, filter-append, last?,
  last?-concat, if◌then◌else◌, or_else,
}
use mathlib.Core.List.{append_assoc, append-nil}
use oacp.Js
use oacp.Js.Map.{get-set}
use oacp.Protocol.Messages.{OacpMessage, message_id, trace_id}
use oacp.Routing.TraceStore.{
  TraceStore, init, push_bounded, record_message, get_messages_for_trace, get_message_by_id,
}

unfoldable pub record_all : TraceStore → List OacpMessage → TraceStore
record_all s [] = s
record_all s (m ∷ ms) = record_all (record_message s m) ms

abbrev pub of_trace : String → List OacpMessage → List OacpMessage
of_trace t = filter (λ m. trace_id m == t)

push_bounded-take_last :
    (n : ℕ) (xs : List OacpMessage) (m : OacpMessage)
    → push_bounded n (take_last n xs) m ≡ take_last n (xs ++ m ∷ [])
unfolding push_bounded
push_bounded-take_last n xs m = ground (
  arith,
  length-append xs (m ∷ []),
  length-append (take_last n xs) (m ∷ []),
  length-drop (length xs - n) xs,
  drop-append (length xs - n) xs (m ∷ []),
  drop-append (suc (length xs - n)) xs (m ∷ []),
  drop_one-drop (length xs - n) (xs ++ m ∷ []),
)

pub get_messages-record :
    (s : TraceStore) (m : OacpMessage) (t : String)
    → get_messages_for_trace (record_message s m) t ≡ (
        if trace_id m == t
        then push_bounded s.max_messages_per_trace (get_messages_for_trace s t) m
        else get_messages_for_trace s t)
unfolding record_message get_messages_for_trace
get_messages-record s m t = ground (
  arith,
  eq_iff (trace_id m) t,
  get-set s.traces (trace_id m) t
      (push_bounded s.max_messages_per_trace (or_else (Js.Map.get s.traces (trace_id m)) []) m),
)

max_messages-record :
    (s : TraceStore) (m : OacpMessage)
    → (record_message s m).max_messages_per_trace ≡ s.max_messages_per_trace
unfolding record_message
max_messages-record s m = refl

-- One message moves the window of its own trace by one place.
window-record :
    (n : ℕ) (s : TraceStore) (seen : List OacpMessage) (m : OacpMessage) (t : String)
    → s.max_messages_per_trace ≡ n
    → get_messages_for_trace s t ≡ take_last n (of_trace t seen)
    → get_messages_for_trace (record_message s m) t ≡ take_last n (of_trace t (seen ++ m ∷ []))
window-record n s seen m t bound h =
    rw (get_messages-record, h, filter-append)
      (ground (arith, push_bounded-take_last n (of_trace t seen) m, append-nil (of_trace t seen)))

window_from :
    (n : ℕ) (s : TraceStore) (seen ms : List OacpMessage) (t : String)
    → s.max_messages_per_trace ≡ n
    → get_messages_for_trace s t ≡ take_last n (of_trace t seen)
    → get_messages_for_trace (record_all s ms) t ≡ take_last n (of_trace t (seen ++ ms))
unfolding record_all
window_from n s seen [] t bound h = rw append-nil h
window_from n s seen (m ∷ ms) t bound h = rw (← append_assoc seen (m ∷ []) ms) (
    window_from n (record_message s m) (seen ++ m ∷ []) ms t (max_messages-record s m ∙ bound)
      (window-record n s seen m t bound h))

-- After any messages are recorded in a fresh store that keeps `n` messages per trace, the messages
-- of each trace are the last `n` recorded with its `trace_id`, in the order of recording.
pub get_messages-record_all :
    (n : ℕ) (ms : List OacpMessage) (t : String)
    → get_messages_for_trace (record_all (init n) ms) t ≡ take_last n (of_trace t ms)
get_messages-record_all n ms t =
    window_from n (init n) [] ms t (unfold init in refl)
      (unfold init get_messages_for_trace Js.Map.get in ground arith)

pub get_message_by_id-record :
    (s : TraceStore) (m : OacpMessage) (i : String)
    → get_message_by_id (record_message s m) i
      ≡ (if message_id m == i then some m else get_message_by_id s i)
unfolding get_message_by_id record_message
get_message_by_id-record s m i = get-set s.message_index (message_id m) i m

abbrev pub with_id : String → List OacpMessage → List OacpMessage
with_id i = filter (λ m. message_id m == i)

index-record :
    (s : TraceStore) (seen : List OacpMessage) (m : OacpMessage) (i : String)
    → get_message_by_id s i ≡ last? (with_id i seen)
    → get_message_by_id (record_message s m) i ≡ last? (with_id i (seen ++ m ∷ []))
index-record s seen m i h =
    rw (get_message_by_id-record, h, filter-append)
      (ground (arith, last?-concat (with_id i seen) m, append-nil (with_id i seen)))

index_from :
    (s : TraceStore) (seen ms : List OacpMessage) (i : String)
    → get_message_by_id s i ≡ last? (with_id i seen)
    → get_message_by_id (record_all s ms) i ≡ last? (with_id i (seen ++ ms))
unfolding record_all
index_from s seen [] i h = rw append-nil h
index_from s seen (m ∷ ms) i h =
    rw (← append_assoc seen (m ∷ []) ms)
      (index_from (record_message s m) (seen ++ m ∷ []) ms i (index-record s seen m i h))

-- After any messages are recorded in a fresh store, a lookup by `message_id` returns the message
-- recorded last with that id, also where the bound has dropped it from its trace, and nothing for
-- an id that no recorded message has.
pub get_message_by_id-record_all :
    (n : ℕ) (ms : List OacpMessage) (i : String)
    → get_message_by_id (record_all (init n) ms) i ≡ last? (with_id i ms)
get_message_by_id-record_all n ms i =
    index_from (init n) [] ms i (unfold init get_message_by_id Js.Map.get in refl)
