-- ===== src/Memory/Types.antt =====
-- core/src/memory/types.ts: entries and queries.
use oacp.Prelude.{ℕ, String, Bool, true, false, Option}
use oacp.Protocol.Json.{Fields}
use oacp.Protocol.Messages.{TaskStatus}

pub data MemoryEntryKind : Type 0 where
  task_request task_response delegation decision output : MemoryEntryKind

abbrev pub same_kind : MemoryEntryKind → MemoryEntryKind → Bool
same_kind task_request task_request = true
same_kind task_response task_response = true
same_kind delegation delegation = true
same_kind decision decision = true
same_kind output output = true
same_kind _ _ = false

pub record MemoryEntryInput : Type 0 where
  pub scope : String
  pub trace_id : String
  pub message_id : Option String
  pub agent_id : String
  pub kind : MemoryEntryKind
  pub capability : Option String
  pub status : Option TaskStatus
  pub payload : Fields
  pub metadata : Option Fields

pub record MemoryEntry : Type 0 where
  pub id : String
  pub created_at : String
  pub content : MemoryEntryInput
  pub open content use *

pub record MemoryQuery : Type 0 where
  pub scope : Option String
  pub trace_id : Option String
  pub agent_id : Option String
  pub kind : Option MemoryEntryKind
  pub capability : Option String
  pub since : Option String
  pub until : Option String
  pub limit : Option ℕ
  pub offset : Option ℕ
