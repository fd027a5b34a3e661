-- ===== src/Memory/GraphRecorder.antt =====
-- core/src/memory/delegation-graph-recorder.ts: a graph that is rebuilt from the memory of a trace.
use oacp.Prelude.{String, Option, none, some}
use oacp.Js.Collation.{Collation}
use oacp.Protocol.Errors.{Result, ok, err}
use oacp.Memory.Types.{MemoryQuery}
use oacp.Memory.Store.{MemoryStore, query}
use oacp.Memory.Graph.Finish.{DelegationGraph, build_from_memory_entries}

-- The entries of one trace, at most 1000.
abbrev pub entries_of_trace : String → MemoryQuery
entries_of_trace trace_id = record {
  scope = none;
  trace_id = some trace_id;
  agent_id = none;
  kind = none;
  capability = none;
  since = none;
  until = none;
  limit = some 1000;
  offset = none;
}

unfoldable pub build_from_memory_store :
    Collation → MemoryStore → String → Result (Option DelegationGraph)
build_from_memory_store c store trace_id = elim (query c (entries_of_trace trace_id) store) [
  | err e ↦ err e
  | ok entries ↦ ok (build_from_memory_entries entries)
]
