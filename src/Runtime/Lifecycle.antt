-- ===== src/Runtime/Lifecycle.antt =====
-- core/src/runtime/lifecycle.ts: the states of an agent and the transitions between them.
use oacp.Prelude.{String, Bool, false, List, [], ◌∷◌, any, true}

pub data AgentLifecycleState : Type 0 where
  created running stopped : AgentLifecycleState

abbrev pub state_text : AgentLifecycleState → String
state_text created = "created"
state_text running = "running"
state_text stopped = "stopped"

abbrev pub same_state : AgentLifecycleState → AgentLifecycleState → Bool
same_state created created = true
same_state running running = true
same_state stopped stopped = true
same_state _ _ = false

-- LIFECYCLE_TRANSITIONS
abbrev pub lifecycle_transitions : AgentLifecycleState → List AgentLifecycleState
lifecycle_transitions created = running ∷ []
lifecycle_transitions running = stopped ∷ []
lifecycle_transitions stopped = []

abbrev pub can_transition : AgentLifecycleState → AgentLifecycleState → Bool
can_transition from to = any (λ s. same_state s to) (lifecycle_transitions from)
