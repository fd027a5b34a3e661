-- ===== src/Resilience/Send/Attempts.antt =====
-- The audit trail that `sendTaskWithRecovery` returns.
use oacp.Prelude.{
  ℕ, zero, suc, ◌+◌, String, ◌≡◌, refl, Bool, true, false, Option, none, some, List, [], ◌∷◌, ◌++◌,
  arith, all, length, length-append, Bool-cases, Option-cases, if_ind, ltb, leb, subst, inl, inr,
}
use oacp.Protocol.Errors.{Result, ok, err, Result-cases}
use oacp.Resilience.Policy.{NormalizedTaskRecoveryPolicy, normalize, build_capability_chain}
use oacp.Resilience.Send.{
  SendTaskParams, SendTaskOutcome, ResilientSendTaskOutcome, delivered, undelivered, succeeded,
  TaskRecoveryAttempt, SendTaskWithRecoveryOptions, RuntimeHandle, Progress, Flow, returns,
  continues, AttemptFlow, finished, retries, gives_up, classify_transport_error, task_error_of,
  spent, give_up, back_off, after_failure, note, judge, attempt_once, try_agent, try_candidates,
  candidates_for, try_capabilities, conclude, send_task_with_recovery, no_progress,
}
use oacp.Resilience.Send.Audit.{
  is_failure, IsNumbered, Within, all-concat, IsNumbered-concat, IsFailed, Audited,
}

-- An outcome is audited, and a rejection is one of a sending.
abbrev pub Settles :
    {W : Type 0} → RuntimeHandle W → Option ℕ → Result ResilientSendTaskOutcome → Type 0
Settles runtime limit (ok o) = Audited limit o
Settles {W} runtime limit (err e) =
    (p : SendTaskParams) × (w : W) × ((runtime.send_sub_task p w).0 ≡ err e)

module _ {W : Type 0} (runtime : RuntimeHandle W) (policy : NormalizedTaskRecoveryPolicy)
    (params : SendTaskParams) where
  abbrev limit : Option ℕ
  limit = policy.max_total_attempts

  -- Between attempts.
  record IsTracked (s : Progress W) : Type 0 where
    counted : s.total_attempts ≡ length s.attempts
    trail : IsFailed limit s.attempts

  -- While an attempt runs: it is counted, and its entry is still to come.
  record IsRunning (s : Progress W) : Type 0 where
    counted : s.total_attempts ≡ suc (length s.attempts)
    failures : all is_failure s.attempts ≡ true
    numbered : IsNumbered 1 s.attempts
    within : Within limit s.total_attempts

  abbrev FlowsAttempt : AttemptFlow W → Type 0
  FlowsAttempt (finished o s) = Settles runtime limit o
  FlowsAttempt (retries s) = IsTracked s
  FlowsAttempt (gives_up s) = IsTracked s

  abbrev Flows : Flow W → Type 0
  Flows (returns o s) = Settles runtime limit o
  Flows (continues s) = IsTracked s

  give_up-IsTracked :
      (agent : String) (s : Progress W)
      → IsTracked s
      → IsTracked (give_up runtime policy params agent s)
  unfolding give_up
  give_up-IsTracked agent s v =
      if_ind IsTracked policy.exclude_failed_agents
        (λ _. record { counted = v.counted; trail = v.trail }) (λ _. v)

  back_off-IsTracked : (s : Progress W) → IsTracked s → IsTracked (back_off runtime policy params s)
  unfolding back_off
  back_off-IsTracked s v =
      if_ind IsTracked (ltb 0 policy.retry_backoff_ms)
        (λ _. record { counted = v.counted; trail = v.trail }) (λ _. v)

  noted-IsTracked :
      (s : Progress W) (r : TaskRecoveryAttempt)
      → IsRunning s
      → r.attempt ≡ s.total_attempts
      → is_failure r ≡ true
      → IsTracked (record s { attempts = s.attempts ++ r ∷ [] })
  noted-IsTracked s r v e f = record {
    counted = omega (arith, length-append s.attempts (r ∷ []), v.counted);
    trail = record {
      failures = all-concat is_failure s.attempts r v.failures f;
      numbered = IsNumbered-concat 1 s.attempts r v.numbered (omega (arith, e, v.counted));
      within =
          subst (Within limit) (omega (arith, length-append s.attempts (r ∷ []), v.counted))
            v.within;
    };
  }

  after_failure-Flows :
      (agent : String) (retry : Bool) (r : TaskRecoveryAttempt) (s : Progress W)
      → IsRunning s
      → r.attempt ≡ s.total_attempts
      → is_failure r ≡ true
      → FlowsAttempt (after_failure runtime policy params agent retry r s)
  unfolding after_failure
  after_failure-Flows agent true r s v e f = back_off-IsTracked _ (noted-IsTracked s r v e f)
  after_failure-Flows agent false r s v e f = give_up-IsTracked agent _ (noted-IsTracked s r v e f)

  classify-fails :
      (n : ℕ) (agent capability code : String) (m : Option String)
      → is_failure (
          note runtime policy params n agent capability
            (classify_transport_error code)
            (some code)
            m)
        ≡ true
  unfolding note classify_transport_error
  classify-fails n agent capability code m = ground arith

  judge-Flows :
      (capability agent : String) (more : Bool) (o : SendTaskOutcome) (s : Progress W)
      → IsRunning s
      → FlowsAttempt (judge runtime policy params capability agent more o s)
  unfolding judge note
  judge-Flows capability agent more (undelivered e) s v =
      after_failure-Flows agent _ _ s v refl
        (classify-fails s.total_attempts agent capability e.code (some e.message))
  judge-Flows capability agent more (delivered request response) s v =
      elim (Option-cases (task_error_of response)) [
        | inr (e, failed) ↦ rw (failed, judge) (after_failure-Flows agent _ _ s v refl refl)
        | inl fine ↦
            rw (fine, judge)
              (record {
                before = s.attempts;
                last =
                    note runtime policy params s.total_attempts agent capability succeeded none
                      none;
                split = refl;
                failures = v.failures;
                success_last = refl;
                agent_last = refl;
                capability_last = refl;
                no_error = fine;
                numbered = IsNumbered-concat 1 s.attempts _ v.numbered (omega (arith, v.counted));
                within =
                    subst (Within limit)
                      (omega (
                        arith,
                        length-append s.attempts (
                            note runtime policy params s.total_attempts agent capability succeeded
                              none none
                            ∷ []),
                        v.counted,
                      ))
                      v.within;
              })
      ]

  -- The test on the total leaves room for one more attempt.
  spent-Within :
      (s : Progress W) → spent runtime policy params s ≡ false → Within limit (s.total_attempts + 1)
  unfolding spent
  spent-Within s h = within_of policy.max_total_attempts h
    where
      within_of :
          (o : Option ℕ)
          → (elim o [ none ↦ false | some n ↦ leb n s.total_attempts ]) ≡ false
          → Within o (s.total_attempts + 1)
      within_of none e = tt
      within_of (some n) e = ground arith

  attempt_once-Flows :
      (capability agent : String) (more : Bool) (s : Progress W)
      → IsTracked s
      → FlowsAttempt (attempt_once runtime policy params capability agent more s)
  unfolding attempt_once
  attempt_once-Flows capability agent more s v = elim (Bool-cases (spent runtime policy params s)) [
    | inl over ↦ rw (over, attempt_once) v.trail
    | inr room ↦
        let p : SendTaskParams = record params { capability = capability; to = some agent } in
        elim (Result-cases (runtime.send_sub_task p s.world).0) [
          | inr (e, rejected) ↦ rw (room, rejected, attempt_once) (p, s.world, rejected)
          | inl (o, answered) ↦
              rw (room, answered, attempt_once)
                (judge-Flows capability agent more o _ (record {
                  counted = omega (arith, v.counted);
                  failures = v.trail.failures;
                  numbered = v.trail.numbered;
                  within = spent-Within s room;
                }))
        ]
  ]

  try_agent-Flows :
      (capability agent : String) (left : ℕ) (s : Progress W)
      → IsTracked s
      → Flows (try_agent runtime policy params capability agent left s)
  unfolding try_agent
  try_agent-Flows capability agent zero s v = v
  try_agent-Flows capability agent (suc left) s v =
      go (attempt_once runtime policy params capability agent (ltb 0 left) s)
        (attempt_once-Flows capability agent (ltb 0 left) s v)
        (try_agent-Flows capability agent left)
    where
      go :
          (f : AttemptFlow W)
          → FlowsAttempt f
          → ((t : Progress W)
              → IsTracked t
              → Flows (try_agent runtime policy params capability agent left t))
          → Flows (elim f [
            | finished o next ↦ returns o next
            | retries next ↦ try_agent runtime policy params capability agent left next
            | gives_up next ↦ continues next
          ])
      go (finished o next) w rest = w
      go (retries next) w rest = rest next w
      go (gives_up next) w rest = w

  -- One loop goes on with the next turn, where the turn before did.
  then-Flows :
      (f : Flow W) (rest : Progress W → Flow W)
      → Flows f
      → ((t : Progress W) → IsTracked t → Flows (rest t))
      → Flows (elim f [ returns o next ↦ returns o next | continues next ↦ rest next ])
  then-Flows (returns o next) rest w k = w
  then-Flows (continues next) rest w k = k next w

  try_candidates-Flows :
      (capability : String) (agents : List String) (s : Progress W)
      → IsTracked s
      → Flows (try_candidates runtime policy params capability agents s)
  unfolding try_candidates
  try_candidates-Flows capability [] s v = v
  try_candidates-Flows capability (agent ∷ agents) s v =
      then-Flows (try_agent runtime policy params capability agent policy.max_attempts_per_agent s)
        _ (try_agent-Flows capability agent policy.max_attempts_per_agent s v)
        (try_candidates-Flows capability agents)

  try_capabilities-Flows :
      (capabilities : List String) (s : Progress W)
      → IsTracked s
      → Flows (try_capabilities runtime policy params capabilities s)
  unfolding try_capabilities
  try_capabilities-Flows [] s v = v
  try_capabilities-Flows (capability ∷ capabilities) s v =
      then-Flows
        (try_candidates runtime policy params capability
          (candidates_for runtime policy params capability s) s)
        _ (try_candidates-Flows capability (candidates_for runtime policy params capability s) s v)
        (try_capabilities-Flows capabilities)

  conclude-Settles : (f : Flow W) → Flows f → Settles runtime limit (conclude params f).0
  unfolding conclude
  conclude-Settles (returns o s) v = v
  conclude-Settles (continues s) v = v.trail

  Within-zero : (o : Option ℕ) → Within o 0
  Within-zero none = tt
  Within-zero (some n) = omega arith

  no_progress-IsTracked : (w : W) → IsTracked (no_progress w)
  no_progress-IsTracked w = record {
    counted = refl;
    trail = record { failures = refl; numbered = tt; within = Within-zero limit };
  }

-- A resilient sending rejects only with the error with which a sending of the runtime rejects. Otherwise it
-- has an outcome, whose trail numbers its attempts one by one from 1 and is no longer than the policy's limit on all attempts, where it has one. If the sending fails, every
-- attempt in the trail failed. If it succeeds, every attempt but the last failed, the last succeeded at the
-- agent and for the capability that are reported, and the response reported is not an error.
pub send_task_with_recovery-Audited :
    {W : Type 0} (runtime : RuntimeHandle W) (params : SendTaskParams)
    (options : SendTaskWithRecoveryOptions) (w : W)
    → Settles runtime
        (normalize options.policy).max_total_attempts
        (send_task_with_recovery runtime params options w).0
unfolding send_task_with_recovery
send_task_with_recovery-Audited runtime params options w =
    let policy = normalize options.policy in
    let chain =
      build_capability_chain params.capability options.step_fallback_capabilities options.policy in
    conclude-Settles runtime policy params
      (try_capabilities runtime policy params chain (no_progress w))
      (try_capabilities-Flows runtime policy params chain (no_progress w)
        (no_progress-IsTracked runtime policy params w))
