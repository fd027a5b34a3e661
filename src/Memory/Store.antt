-- ===== src/Memory/Store.antt =====
-- core/src/memory/in-memory-store.ts: the store that lives in memory.
pub mod Laws
use oacp.Prelude.{
  ℕ, String, Bool, true, false, not, ◌&&◌, Option, none, some, List, [], ◌∷◌, filter, drop, take,
  or_else, if◌then◌else◌, ◌==◌,
}
use oacp.Js.Map
use oacp.Js.Map.{Map}
use oacp.Js.Set
use oacp.Js.Sort.{sort}
use oacp.Js.Collation.{Collation}
use oacp.Protocol.Errors.{OacpError, memory_error, Result, ok, err}
use oacp.Protocol.Errors.Codes.{store_closed}
use oacp.Memory.Types.{MemoryEntryKind, same_kind, MemoryEntryInput, MemoryEntry, MemoryQuery}

pub record MemoryStore : Type 0 where
  pub entries : Map MemoryEntry
  pub closed : Bool

abbrev pub create : MemoryStore
create = record { entries = []; closed = false }

abbrev pub closed_error : OacpError
closed_error = memory_error store_closed "Memory store is closed" []

-- The identifier is what `randomUUID` yields, and the time is the clock's.
unfoldable pub append :
    String → String → MemoryEntryInput → MemoryStore → Result (MemoryEntry × MemoryStore)
append id now input s =
    let entry : MemoryEntry = record { id = id; created_at = now; content = input } in
    if s.closed
    then err closed_error
    else ok (entry, record s { entries = Map.set s.entries id entry })

unfoldable pub get : MemoryStore → String → Result (Option MemoryEntry)
get s id = if s.closed then err closed_error else ok (Map.get s.entries id)

abbrev pub wants : Option String → String → Bool
wants none b = true
wants (some a) b = a == b

abbrev pub wants_kind : Option MemoryEntryKind → MemoryEntryKind → Bool
wants_kind none k = true
wants_kind (some j) k = same_kind j k

module _ (c : Collation) where
  -- `!(created_at < since)` and `!(created_at > until)`
  abbrev pub is_since : Option String → String → Bool
  is_since none t = true
  is_since (some since) t = c.code_unit_le since t

  abbrev pub is_until : Option String → String → Bool
  is_until none t = true
  is_until (some until) t = c.code_unit_le t until

  unfoldable pub matches_query : MemoryQuery → MemoryEntry → Bool
  matches_query q e =
      wants q.scope e.scope
      && wants q.trace_id e.trace_id
      && wants q.agent_id e.agent_id
      && wants_kind q.kind e.kind
      && (elim q.capability [
        | none ↦ true
        | some a ↦ elim e.capability [ none ↦ false | some b ↦ a == b ]
      ])
      && is_since q.since e.created_at
      && is_until q.until e.created_at

  abbrev pub by_created_at : MemoryEntry → MemoryEntry → Bool
  by_created_at a b = c.locale_le a.created_at b.created_at

  unfoldable pub query : MemoryQuery → MemoryStore → Result (List MemoryEntry)
  query q s =
      if s.closed
      then err closed_error
      else ok (
          take (or_else q.limit 100) (
            drop (or_else q.offset 0)
              (sort by_created_at (filter (matches_query q) (Map.values s.entries)))))

  unfoldable pub scopes_of : List MemoryEntry → Set.Set → Set.Set
  scopes_of [] s = s
  scopes_of (e ∷ es) s = scopes_of es (Set.add s e.scope)

  unfoldable pub list_scopes : MemoryStore → Result (List String)
  unfolding scopes_of
  list_scopes s =
      if s.closed
      then err closed_error
      else ok (sort c.code_unit_le (scopes_of (Map.values s.entries) []))

unfoldable pub close : MemoryStore → MemoryStore
close s = record { entries = []; closed = true }
