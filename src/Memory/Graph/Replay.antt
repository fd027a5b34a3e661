-- ===== src/Memory/Graph/Replay.antt =====
-- Entries that are recorded for messages build the graph of the messages.
use oacp.Prelude.{
  ℕ, String, ◌≡◌, refl, sym, ap, ◌∙◌, Bool, true, false, not, ◌&&◌, Option, none, some, List, [],
  ◌∷◌, arith, ◌==◌, map, all, Option-cases, inl, inr,
}
use oacp.Protocol.Json.{Fields, get_field, text_field, optional_field}
use oacp.Protocol.Messages.{
  TaskRequestMessage, TaskResponseMessage, DelegationMessage, OacpMessage, task_request,
  task_response, delegation, capability_query, timestamp,
}
use oacp.Memory.Types.{MemoryEntryInput, MemoryEntry}
use oacp.Memory.Recorder.{
  response_kind, entry_of, request_entry, response_entry, delegation_entry, scoped,
}
use oacp.Memory.Graph.{
  MutableDelegationGraphState, request_of, response_of, delegation_of, apply_message, apply_entry,
  apply_entry_with, apply_delegation_entry, apply_response_entry, truthy,
}
use oacp.Memory.Graph.Finish.{apply_messages, apply_entries}

-- The identifiers that a message refers to are not empty.
abbrev pub refers : OacpMessage → Bool
refers (task_request m) = not (m.message_id == "")
refers (delegation m) = not (m.message_id == "") && not (m.parent_message_id == "")
refers (task_response m) = not (m.message_id == "") && not (m.in_reply_to == "")
refers (capability_query m) = true

request_to :
    (m : TaskRequestMessage) (parent : Option String)
    → text_field (request_entry m parent).payload "to" ≡ m.to
unfolding request_entry text_field get_field optional_field
request_to m parent = go m.to m.deadline_ms parent
  where
    go :
        (to : Option String) (deadline : Option ℕ) (p : Option String)
        → text_field (request_entry (record m { to = to; deadline_ms = deadline }) p).payload "to"
          ≡ to
    go (some to) d p = refl
    go none none none = refl
    go none none (some p) = refl
    go none (some d) none = refl
    go none (some d) (some p) = refl

request_parent :
    (m : TaskRequestMessage) (parent : Option String)
    → text_field (request_entry m parent).payload "parent_message_id" ≡ parent
unfolding request_entry text_field get_field optional_field
request_parent m parent = go m.to m.deadline_ms parent
  where
    go :
        (to : Option String) (deadline : Option ℕ) (p : Option String)
        → text_field
            (request_entry (record m { to = to; deadline_ms = deadline }) p).payload
            "parent_message_id"
          ≡ p
    go none none none = refl
    go none none (some p) = refl
    go none (some d) none = refl
    go none (some d) (some p) = refl
    go (some t) none none = refl
    go (some t) none (some p) = refl
    go (some t) (some d) none = refl
    go (some t) (some d) (some p) = refl

delegation_to : (m : DelegationMessage) → text_field (delegation_entry m).payload "to" ≡ m.to
unfolding delegation_entry text_field get_field optional_field
delegation_to m = go m.to m.reason
  where
    go :
        (to reason : Option String)
        → text_field (delegation_entry (record m { to = to; reason = reason })).payload "to" ≡ to
    go (some to) r = refl
    go none none = refl
    go none (some r) = refl

delegation_parent :
    (m : DelegationMessage)
    → text_field (delegation_entry m).payload "parent_message_id" ≡ some m.parent_message_id
unfolding delegation_entry text_field get_field
delegation_parent m = refl

response_request :
    (m : TaskResponseMessage)
    → text_field (response_entry m).payload "in_reply_to" ≡ some m.in_reply_to
unfolding response_entry text_field get_field
response_request m = refl

truthy-some : (t : String) → (t == "") ≡ false → truthy (some t) ≡ some t
truthy-some t h = ground (arith, h)

-- The entry of a message that is stored at the time of the message.
abbrev pub stored_at : String → String → OacpMessage → MemoryEntryInput → MemoryEntry
stored_at id scope m input = record {
  id = id;
  created_at = timestamp m;
  content = scoped scope input;
}

apply_entry_lem :
    (s : MutableDelegationGraphState) (e : MemoryEntry) (id : String)
    → e.message_id ≡ some id
    → (id == "") ≡ false
    → apply_entry s e ≡ apply_entry_with s e id
unfolding apply_entry
apply_entry_lem s e id h k = ground (arith, h, k)

apply_request_entry :
    (s : MutableDelegationGraphState) (m : TaskRequestMessage) (parent : Option String)
    (id scope : String)
    → apply_entry_with s (stored_at id scope (task_request m) (request_entry m parent)) m.message_id
      ≡ apply_message s (task_request m) parent
unfolding apply_entry_with apply_message request_of request_entry
apply_request_entry s m parent id scope = rw (request_to m parent, request_parent m parent)

apply_delegation_message_entry :
    (s : MutableDelegationGraphState) (m : DelegationMessage) (parent : Option String)
    (id scope : String)
    → (m.parent_message_id == "") ≡ false
    → apply_entry_with s (stored_at id scope (delegation m) (delegation_entry m)) m.message_id
      ≡ apply_message s (delegation m) parent
unfolding apply_entry_with apply_delegation_entry apply_message delegation_of delegation_entry
apply_delegation_message_entry s m parent id scope h =
    rw (delegation_parent m, truthy-some m.parent_message_id h, delegation_to m)

apply_entry-response_kind :
    (s : MutableDelegationGraphState) (e : MemoryEntry) (id : String) (o : Option Fields)
    → e.kind ≡ response_kind o
    → apply_entry_with s e id
      ≡ apply_response_entry s e id (truthy (text_field e.payload "in_reply_to"))
unfolding apply_entry_with
apply_entry-response_kind s e id none h = ground (arith, h)
apply_entry-response_kind s e id (some o) h = ground (arith, h)

apply_response_message_entry :
    (s : MutableDelegationGraphState) (m : TaskResponseMessage) (parent : Option String)
    (id scope : String)
    → (m.in_reply_to == "") ≡ false
    → apply_entry_with s (stored_at id scope (task_response m) (response_entry m)) m.message_id
      ≡ apply_message s (task_response m) parent
unfolding apply_response_entry apply_message response_of response_entry
apply_response_message_entry s m parent id scope h =
    apply_entry-response_kind s (stored_at id scope (task_response m) (response_entry m))
      m.message_id m.output refl
    ∙ rw (response_request m, truthy-some m.in_reply_to h)

-- An entry that is recorded for a message, at the time of the message, does to a graph what the message does.
pub apply_entry-entry_of :
    (s : MutableDelegationGraphState) (m : OacpMessage) (parent : Option String) (id scope : String)
    (input : MemoryEntryInput)
    → refers m ≡ true
    → entry_of m parent ≡ some input
    → apply_entry s (stored_at id scope m input) ≡ apply_message s m parent
unfolding entry_of
apply_entry-entry_of s (task_request m) parent id scope input h e =
    let same : request_entry m parent ≡ input = ground (arith, e) in
    rw (← same) (
      apply_entry_lem s (stored_at id scope (task_request m) (request_entry m parent)) m.message_id
        (unfold request_entry in refl) (ground (arith, h))
      ∙ apply_request_entry s m parent id scope)
apply_entry-entry_of s (delegation m) parent id scope input h e =
    let same : delegation_entry m ≡ input = ground (arith, e) in
    rw (← same) (
      apply_entry_lem s (stored_at id scope (delegation m) (delegation_entry m)) m.message_id
        (unfold delegation_entry in refl) (ground (arith, h))
      ∙ apply_delegation_message_entry s m parent id scope (ground (arith, h)))
apply_entry-entry_of s (task_response m) parent id scope input h e =
    let same : response_entry m ≡ input = ground (arith, e) in
    rw (← same) (
      apply_entry_lem s (stored_at id scope (task_response m) (response_entry m)) m.message_id
        (unfold response_entry in refl) (ground (arith, h))
      ∙ apply_response_message_entry s m parent id scope (ground (arith, h)))
apply_entry-entry_of s (capability_query m) parent id scope input h e = absurd (ground (arith, e))

-- A message that was recorded: with its parent, the entry's identifier, and its scope.
pub record Recorded : Type 0 where
  pub message : OacpMessage
  pub parent : Option String
  pub id : String
  pub scope : String

abbrev pub recorded_message : Recorded → OacpMessage × Option String
recorded_message r = (r.message, r.parent)

-- The entries that are stored for messages; queries have none.
unfoldable pub entries_of : List Recorded → List MemoryEntry
entries_of [] = []
entries_of (r ∷ rs) =
    let rest : List MemoryEntry = entries_of rs in
    elim (entry_of r.message r.parent) [
      | none ↦ rest
      | some input ↦ stored_at r.id r.scope r.message input ∷ rest
    ]

apply_message-none :
    (s : MutableDelegationGraphState) (m : OacpMessage) (parent : Option String)
    → entry_of m parent ≡ none
    → apply_message s m parent ≡ s
unfolding entry_of apply_message
apply_message-none s (task_request m) parent h = absurd (ground (arith, h))
apply_message-none s (delegation m) parent h = absurd (ground (arith, h))
apply_message-none s (task_response m) parent h = absurd (ground (arith, h))
apply_message-none s (capability_query m) parent h = refl

-- The graph that is rebuilt from the entries of any messages, stored at the times of the messages, is the
-- graph that was built from the messages and their parents as they came, if no message has an empty id or
-- refers to one.
pub apply_entries-entries_of :
    (s : MutableDelegationGraphState) (rs : List Recorded)
    → all (λ r. refers r.message) rs ≡ true
    → apply_entries s (entries_of rs) ≡ apply_messages s (map recorded_message rs)
unfolding apply_entries entries_of apply_messages
apply_entries-entries_of s [] h = refl
apply_entries-entries_of s (r ∷ rs) h = elim (Option-cases (entry_of r.message r.parent)) [
  | inl unrecorded ↦
      rw (unrecorded, entries_of)
        (apply_entries-entries_of s rs (ground (arith, h))
          ∙ ap (λ t. apply_messages t (map recorded_message rs))
              (sym (apply_message-none s r.message r.parent unrecorded)))
  | inr (input, e) ↦
      rw (e, entries_of)
        (ap (λ t. apply_entries t (entries_of rs))
            (apply_entry-entry_of s r.message r.parent r.id r.scope input (ground (arith, h)) e)
          ∙ apply_entries-entries_of (apply_message s r.message r.parent) rs (ground (arith, h)))
]
