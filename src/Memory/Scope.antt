-- ===== src/Memory/Scope.antt =====
-- core/src/memory/scope-manager.ts. `toLowerCase` is a parameter.
use oacp.Prelude.{String, Option, none, some, [], ◌∷◌, if◌then◌else◌, ◌==◌}
use oacp.Memory.Pattern.{is_scope}
use oacp.Js.Text.{trim}
use oacp.Protocol.Json.{template}
use oacp.Protocol.Errors.{OacpError, memory_error, Result, ok, err}
use oacp.Protocol.Errors.Codes.{invalid_scope}

abbrev pub default_memory_scope : String
default_memory_scope = "workflow.default"

unfoldable pub invalid_scope_error : String → OacpError
invalid_scope_error scope =
    memory_error invalid_scope (template ("Invalid memory scope \"" ∷ scope ∷ "\"" ∷ []))
      (record { path = "/scope"; message = "Scope must match /^[a-z][a-z0-9._-]{0,127}$/" } ∷ [])

module _ (to_lower_case : String → String) where
  unfoldable pub normalize_scope : String → Result String
  normalize_scope scope =
      let trimmed : String = to_lower_case (trim scope) in
      if is_scope trimmed then ok trimmed else err (invalid_scope_error scope)

  unfoldable pub trace_scope : String → Result String
  trace_scope trace_id = normalize_scope (template ("workflow.trace." ∷ trace_id ∷ []))

  -- An empty explicit scope is none.
  unfoldable pub resolve_scope : String → Option String → Result String
  resolve_scope trace_id none = trace_scope trace_id
  resolve_scope trace_id (some scope) =
      if scope == "" then trace_scope trace_id else normalize_scope scope
