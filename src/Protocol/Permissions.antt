-- ===== src/Protocol/Permissions.antt =====
-- core/src/protocol/permissions.ts: what an agent may invoke, delegate and read. The validation against the JSON schema is the host's.
use oacp.Prelude.{
  String, Bool, true, ◌&&◌, Option, none, some, List, [], ◌∷◌, or_else, if◌then◌else◌, ◌==◌,
}
use oacp.Js.Set
use oacp.Protocol.Json.{template}
use oacp.Protocol.Errors.{OacpError, validation_error, Result, check_then, ok}
use oacp.Protocol.Errors.Codes.{permission_denied}

pub record AgentPermissions : Type 0 where
  pub agent_id : String
  pub version : String
  pub invoke : Option (List String)
  pub delegate : Option (List String)
  pub memory_scopes : Option (List String)
  pub allowed_agents : Option (List String)

unfoldable pub can_invoke : AgentPermissions → String → Bool
can_invoke p capability = Set.has (or_else p.invoke []) capability

-- No target, the empty one, and an absent or empty list restrict nothing.
unfoldable pub is_allowed_agent : Option String → Option (List String) → Bool
is_allowed_agent none agents = true
is_allowed_agent (some target) none = true
is_allowed_agent (some target) (some []) = true
is_allowed_agent (some target) (some (a ∷ agents)) =
    if target == "" then true else Set.has (a ∷ agents) target

unfoldable pub can_delegate : AgentPermissions → String → Option String → Bool
can_delegate p capability target =
    Set.has (or_else p.delegate []) capability && is_allowed_agent target p.allowed_agents

unfoldable pub can_access_memory_scope : AgentPermissions → String → Bool
can_access_memory_scope p scope = Set.has (or_else p.memory_scopes []) scope

abbrev pub denied : AgentPermissions → String → String → OacpError
denied p verb capability =
    validation_error permission_denied
      (template (
        "Agent " ∷ p.agent_id ∷ " is not permitted to " ∷ verb ∷ " capability: " ∷ capability ∷ []))
      []

unfoldable pub assert_can_invoke : AgentPermissions → String → Result (Unit {0})
assert_can_invoke p capability =
    check_then (can_invoke p capability) (denied p "invoke" capability) (ok tt)

unfoldable pub assert_can_delegate : AgentPermissions → String → Option String → Result (Unit {0})
assert_can_delegate p capability target =
    check_then (can_delegate p capability target) (denied p "delegate" capability) (ok tt)
