-- ===== src/Resilience/Send.antt =====
-- core/src/resilience/resilient-send.ts: `sendTaskWithRecovery`. The runtime that sends, the bus that
-- finds agents and the sleeping are a handle over a world that each of them may change. A sending of the
-- runtime may reject, and then the function rejects with the same error.
pub mod Attempts
pub mod Audit
use oacp.Prelude.{
  ℕ, zero, suc, ◌+◌, String, Bool, true, false, not, ◌&&◌, Option, none, some, List, [], ◌∷◌, ◌++◌,
  ltb, leb, or_else, last?, filter, if◌then◌else◌, ◌==◌,
}
use oacp.Js.Set
use oacp.Js.Set.{Set}
use oacp.Js.Collation.{Collation}
use oacp.Protocol.Json.{Fields, template}
use oacp.Protocol.Errors.{OacpError, runtime_error, Result, ok, err}
use oacp.Protocol.Errors.Codes.{response_timeout, task_handler_failed, recovery_exhausted}
use oacp.Protocol.Messages.{
  TaskRequestMessage, TaskResponseMessage, TaskErrorBody, TaskStatus, success, error,
}
use oacp.Routing.Router.{sort_agents_by_uri}
use oacp.Resilience.Policy.{
  TaskRecoveryPolicy, NormalizedTaskRecoveryPolicy, normalize, is_retryable_transport_error,
  is_retryable_task_error, build_capability_chain,
}

pub record SendTaskParams : Type 0 where
  pub capability : String
  pub input : Fields
  pub to : Option String
  pub deadline_ms : Option ℕ
  pub trace_id : Option String
  pub parent_message_id : Option String
  pub wait_for_response : Option Bool
  pub timeout_ms : Option ℕ

pub data SendTaskOutcome : Type 0 where
  delivered : TaskRequestMessage → Option TaskResponseMessage → SendTaskOutcome
  undelivered : OacpError → SendTaskOutcome

pub data TaskRecoveryAttemptOutcome : Type 0 where
  transport_failed task_failed timed_out succeeded : TaskRecoveryAttemptOutcome

pub record TaskRecoveryAttempt : Type 0 where
  pub attempt : ℕ
  pub agent_id : String
  pub capability : String
  pub outcome : TaskRecoveryAttemptOutcome
  pub error_code : Option String
  pub error_message : Option String

pub data ResilientSendTaskOutcome : Type 0 where
  recovered :
      (request : TaskRequestMessage) (response : Option TaskResponseMessage)
      (recovery_attempts : List TaskRecoveryAttempt) (selected_agent selected_capability : String)
      → ResilientSendTaskOutcome
  exhausted :
      (failure : OacpError) (recovery_attempts : List TaskRecoveryAttempt)
      → ResilientSendTaskOutcome

pub record SendTaskWithRecoveryOptions : Type 0 where
  pub policy : Option TaskRecoveryPolicy
  pub step_fallback_capabilities : Option (List String)

pub record RuntimeHandle (W : Type 0) : Type 0 where
  pub collation : Collation
  pub send_sub_task : SendTaskParams → W → Result SendTaskOutcome × W
  pub find_agents_by_capability : String → W → List String
  pub sleep : ℕ → W → W

-- The local variables of the loops, and the world.
pub record Progress (W : Type 0) : Type 0 where
  pub attempts : List TaskRecoveryAttempt
  pub failed_agents : Set
  pub total_attempts : ℕ
  pub world : W

-- A loop returns from the function, by an outcome or a rejection, or goes on.
pub data Flow (W : Type 0) : Type 0 where
  returns : Result ResilientSendTaskOutcome → Progress W → Flow W
  continues : Progress W → Flow W

-- After one attempt: a return, another attempt at the same agent, or the next agent.
pub data AttemptFlow (W : Type 0) : Type 0 where
  finished : Result ResilientSendTaskOutcome → Progress W → AttemptFlow W
  retries gives_up : Progress W → AttemptFlow W

classify_transport_error : String → TaskRecoveryAttemptOutcome
classify_transport_error code = if code == response_timeout then timed_out else transport_failed

outcome_text : TaskRecoveryAttemptOutcome → String
outcome_text transport_failed = "transport_error"
outcome_text task_failed = "task_error"
outcome_text timed_out = "timeout"
outcome_text succeeded = "success"

failure_detail : Option TaskRecoveryAttempt → String
unfolding outcome_text
failure_detail none = "No agents available"
failure_detail (some last) = template (
    "Last failure: "
    ∷ last.agent_id
    ∷ " ("
    ∷ or_else last.error_code (outcome_text last.outcome)
    ∷ ")"
    ∷ [])

unfoldable pub exhausted_error : String → List TaskRecoveryAttempt → OacpError
unfolding failure_detail
exhausted_error capability attempts =
    runtime_error recovery_exhausted
      (template (
        "Recovery exhausted for capability \""
        ∷ capability
        ∷ "\" — "
        ∷ failure_detail (last? attempts)
        ∷ []))
      (record { path = "/capability"; message = "All candidate agents failed" } ∷ [])

default_task_error : TaskErrorBody
default_task_error = record {
  code = task_handler_failed;
  message = "Task handler returned error status";
  details = none;
}

-- The task error of a response, where its status is `error`.
unfoldable pub task_error_of : Option TaskResponseMessage → Option TaskErrorBody
unfolding default_task_error
task_error_of none = none
task_error_of (some response) = elim response.status [
  | success ↦ none
  | error ↦ some (or_else response.error default_task_error)
]

module _ {W : Type 0} (runtime : RuntimeHandle W) (policy : NormalizedTaskRecoveryPolicy)
    (params : SendTaskParams) where
  unfoldable pub resolve_agent_candidates : String → W → List String
  resolve_agent_candidates capability w = elim params.to [
    | some to ↦ to ∷ []
    | none ↦ elim policy.fallback_agents [
      | some (a ∷ agents) ↦ a ∷ agents
      | _ ↦ sort_agents_by_uri runtime.collation (runtime.find_agents_by_capability capability w)
    ]
  ]

  -- `policy.maxTotalAttempts !== undefined && totalAttempts >= policy.maxTotalAttempts`
  unfoldable pub spent : Progress W → Bool
  spent s = elim policy.max_total_attempts [ none ↦ false | some n ↦ leb n s.total_attempts ]

  unfoldable pub give_up : String → Progress W → Progress W
  give_up agent s =
      if policy.exclude_failed_agents
      then record s { failed_agents = Set.add s.failed_agents agent }
      else s

  unfoldable pub back_off : Progress W → Progress W
  back_off s =
      if ltb 0 policy.retry_backoff_ms
      then record s { world = runtime.sleep policy.retry_backoff_ms s.world }
      else s

  -- The attempt is written down, and the same agent is retried or given up.
  unfoldable pub after_failure : String → Bool → TaskRecoveryAttempt → Progress W → AttemptFlow W
  after_failure agent retry record_ s =
      let noted : Progress W = record s { attempts = s.attempts ++ record_ ∷ [] } in
      if retry then retries (back_off noted) else gives_up (give_up agent noted)

  note :
      ℕ
      → String
      → String
      → TaskRecoveryAttemptOutcome
      → Option String
      → Option String
      → TaskRecoveryAttempt
  note n agent capability outcome code message = record {
    attempt = n;
    agent_id = agent;
    capability = capability;
    outcome = outcome;
    error_code = code;
    error_message = message;
  }

  -- What follows the outcome of one attempt. `more` tells that attempts at the agent are left.
  unfoldable pub judge : String → String → Bool → SendTaskOutcome → Progress W → AttemptFlow W
  unfolding note classify_transport_error
  judge capability agent more (undelivered e) s =
      after_failure agent (more && is_retryable_transport_error e.code policy)
        (note s.total_attempts agent capability (classify_transport_error e.code) (some e.code)
          (some e.message))
        s
  judge capability agent more (delivered request response) s = elim (task_error_of response) [
    | some e ↦
        after_failure agent (more && is_retryable_task_error e.code policy)
          (note s.total_attempts agent capability task_failed (some e.code) (some e.message)) s
    | none ↦
        let done : List TaskRecoveryAttempt =
          s.attempts ++ note s.total_attempts agent capability succeeded none none ∷ [] in
        finished (ok (recovered request response done agent capability))
          (record s { attempts = done })
  ]

  -- One turn of the innermost loop.
  unfoldable pub attempt_once : String → String → Bool → Progress W → AttemptFlow W
  attempt_once capability agent more s =
      if spent s
      then finished (ok (exhausted (exhausted_error params.capability s.attempts) s.attempts)) s
      else let (answer, after) =
          runtime.send_sub_task (record params { capability = capability; to = some agent })
            s.world in
        let counted : Progress W = record s {
          total_attempts = s.total_attempts + 1;
          world = after;
        } in
        elim answer [
          | err e ↦ finished (err e) counted
          | ok outcome ↦ judge capability agent more outcome counted
        ]

  -- The attempts at one agent; the number is that of the turns left.
  unfoldable pub try_agent : String → String → ℕ → Progress W → Flow W
  try_agent capability agent zero s = continues s
  try_agent capability agent (suc left) s = elim (attempt_once capability agent (ltb 0 left) s) [
    | finished o next ↦ returns o next
    | retries next ↦ try_agent capability agent left next
    | gives_up next ↦ continues next
  ]

  unfoldable pub try_candidates : String → List String → Progress W → Flow W
  try_candidates capability [] s = continues s
  try_candidates capability (agent ∷ agents) s =
      elim (try_agent capability agent policy.max_attempts_per_agent s) [
        | returns o next ↦ returns o next
        | continues next ↦ try_candidates capability agents next
      ]

  unfoldable pub candidates_for : String → Progress W → List String
  candidates_for capability s =
      let found : List String = resolve_agent_candidates capability s.world in
      if policy.exclude_failed_agents
      then filter (λ a. not (Set.has s.failed_agents a)) found
      else found

  unfoldable pub try_capabilities : List String → Progress W → Flow W
  try_capabilities [] s = continues s
  try_capabilities (capability ∷ capabilities) s =
      elim (try_candidates capability (candidates_for capability s) s) [
        | returns o next ↦ returns o next
        | continues next ↦ try_capabilities capabilities next
      ]

module _ {W : Type 0} where
  -- The failure after the loops.
  unfoldable pub conclude : SendTaskParams → Flow W → Result ResilientSendTaskOutcome × W
  conclude params (returns o s) = (o, s.world)
  conclude params (continues s) =
      (ok (exhausted (exhausted_error params.capability s.attempts) s.attempts), s.world)

  abbrev pub no_progress : W → Progress W
  no_progress w = record { attempts = []; failed_agents = []; total_attempts = 0; world = w }

  unfoldable pub send_task_with_recovery :
      RuntimeHandle W
      → SendTaskParams
      → SendTaskWithRecoveryOptions
      → W
      → Result ResilientSendTaskOutcome × W
  send_task_with_recovery runtime params options w = conclude params (
      try_capabilities runtime (normalize options.policy) params
        (build_capability_chain params.capability options.step_fallback_capabilities options.policy)
        (no_progress w))
