-- ===== src/Resilience/Send/Audit.antt =====
-- What an audit trail of attempts is right about.
use oacp.Prelude.{
  ℕ, suc, ◌+◌, ◌≤◌, String, ◌≡◌, Bool, true, false, Option, none, some, List, [], ◌∷◌, ◌++◌, arith,
  all, length,
}
use oacp.Protocol.Messages.{TaskResponseMessage}
use oacp.Resilience.Send.{
  succeeded, TaskRecoveryAttempt, ResilientSendTaskOutcome, recovered, exhausted, task_error_of,
}

abbrev pub is_failure : TaskRecoveryAttempt → Bool
is_failure r = elim r.outcome [ succeeded ↦ false | _ ↦ true ]

-- The attempts are numbered one by one from `k`.
abbrev pub IsNumbered : ℕ → List TaskRecoveryAttempt → Type 0
IsNumbered k [] = Unit {0}
IsNumbered k (r ∷ rs) = (r.attempt ≡ k) × IsNumbered (suc k) rs

-- At most as many as the limit, where there is one.
abbrev pub Within : Option ℕ → ℕ → Type 0
Within none n = Unit {0}
Within (some limit) n = n ≤ limit

pub all-concat :
    (p : TaskRecoveryAttempt → Bool) (rs : List TaskRecoveryAttempt) (r : TaskRecoveryAttempt)
    → all p rs ≡ true
    → p r ≡ true
    → all p (rs ++ r ∷ []) ≡ true
all-concat p [] r h k = ground arith
all-concat p (x ∷ rs) r h k = ground (arith, all-concat p rs r)

pub IsNumbered-concat :
    (k : ℕ) (rs : List TaskRecoveryAttempt) (r : TaskRecoveryAttempt)
    → IsNumbered k rs
    → r.attempt ≡ k + length rs
    → IsNumbered k (rs ++ r ∷ [])
IsNumbered-concat k [] r h e = (omega arith, tt)
IsNumbered-concat k (x ∷ rs) r h e = (h.0, IsNumbered-concat (suc k) rs r h.1 (omega arith))

-- A trail of failures.
pub record IsFailed (limit : Option ℕ) (rs : List TaskRecoveryAttempt) : Type 0 where
  pub failures : all is_failure rs ≡ true
  pub numbered : IsNumbered 1 rs
  pub within : Within limit (length rs)

-- A trail of failures with one success at its end, at the agent and for the capability selected.
pub record IsRecovered (limit : Option ℕ) (rs : List TaskRecoveryAttempt)
    (response : Option TaskResponseMessage) (agent capability : String) : Type 0 where
  pub before : List TaskRecoveryAttempt
  pub last : TaskRecoveryAttempt
  pub split : rs ≡ before ++ last ∷ []
  pub failures : all is_failure before ≡ true
  pub success_last : last.outcome ≡ succeeded
  pub agent_last : last.agent_id ≡ agent
  pub capability_last : last.capability ≡ capability
  pub no_error : task_error_of response ≡ none
  pub numbered : IsNumbered 1 rs
  pub within : Within limit (length rs)

abbrev pub Audited : Option ℕ → ResilientSendTaskOutcome → Type 0
Audited limit (recovered request response rs agent capability) =
    IsRecovered limit rs response agent capability
Audited limit (exhausted failure rs) = IsFailed limit rs
