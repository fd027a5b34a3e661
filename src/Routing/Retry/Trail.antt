-- ===== src/Routing/Retry/Trail.antt =====
-- The attempts of `executeWithRetry` of core/src/routing/retry-policy.ts.
use oacp.Prelude.{
  ℕ, zero, suc, ◌+◌, ◌-◌, ◌≤◌, String, ◌≡◌, refl, sym, ap, ◌∙◌, ◌⊎◌, inl, inr, Bool, true, false,
  Option, none, some, List, [], ◌∷◌, ◌++◌, length, ltb, nat_eq, arith, Bool-cases, subst,
}
use mathlib.Core.List.{append_assoc}
use oacp.Routing.Retry.{RetryPolicy, compute_backoff_ms}
use oacp.Routing.Retry.Execute.{
  normal, refused, normalize_retry_policy, Attempted, returned, threw, RetryAttemptInfo,
  ExecuteWithRetryOptions, wants_retry, told, pause, attempts_from, executed, bad_policy,
  execute_with_retry,
}

-- One attempt: its number, and what it gave.
abbrev pub Entry : Type 0 → Type 0 → Type 0
Entry A E = ℕ × Attempted A E

-- A function that keeps its attempts.
abbrev pub logging :
    {A E W : Type 0}
    → (ℕ → W → Attempted A E × W)
    → ℕ
    → List (Entry A E) × W
    → Attempted A E × (List (Entry A E) × W)
logging fn attempt (log, w) =
    ((fn attempt w).0, (log ++ (attempt, (fn attempt w).0) ∷ [], (fn attempt w).1))

-- Attempts with numbers from one on: each but the last threw an error that was to be retried, and the
-- outcome is that of the last, which returned, or was the last that the policy allows, or threw an error
-- that was not to be retried.
pub data IsTrail {A E : Type 0} (wants : E → ℕ → Bool)
    : ℕ → ℕ → List (Entry A E) → Attempted A E → Type 0 where
  ends_well : (left n : ℕ) (a : A) → IsTrail wants left n ((n, returned a) ∷ []) (returned a)
  used_up : (n : ℕ) (e : E) → IsTrail wants zero n ((n, threw e) ∷ []) (threw e)
  given_up :
      (left n : ℕ) (e : E) → wants e n ≡ false → IsTrail wants left n ((n, threw e) ∷ []) (threw e)
  again :
      (left n : ℕ) (e : E) (entries : List (Entry A E)) (o : Attempted A E)
      → wants e n ≡ true
      → IsTrail wants left (suc n) entries o
      → IsTrail wants (suc left) n ((n, threw e) ∷ entries) o

-- There are at most as many attempts as are left, and one.
IsTrail-length :
    {A E : Type 0} (wants : E → ℕ → Bool) (left n : ℕ) (entries : List (Entry A E))
    (o : Attempted A E)
    → IsTrail wants left n entries o
    → length entries ≤ left + 1
IsTrail-length wants left n _ _ (ends_well _ _ a) = omega arith
IsTrail-length wants _ n _ _ (used_up _ e) = omega arith
IsTrail-length wants left n _ _ (given_up _ _ e h) = omega arith
IsTrail-length wants _ n _ _ (again left _ e entries o h t) =
    omega (arith, IsTrail-length wants left (suc n) entries o t)

module _ {A E W : Type 0} (fn : ℕ → W → Attempted A E × W) (options : ExecuteWithRetryOptions E W)
    (policy : RetryPolicy) where
  attempts_from-returned :
      (left n : ℕ) (w : W) (a : A)
      → (fn n w).0 ≡ returned a
      → attempts_from fn options policy (suc left) n w ≡ (returned a, (fn n w).1)
  unfolding attempts_from
  attempts_from-returned left n w a h = rw (h, attempts_from) refl

  attempts_from-again :
      (left n : ℕ) (w : W) (e : E)
      → (fn n w).0 ≡ threw e
      → wants_retry fn options policy e n ≡ true
      → attempts_from fn options policy (suc left) n w
        ≡ attempts_from fn options policy left (suc n) (pause fn options policy e n (fn n w).1)
  unfolding attempts_from
  attempts_from-again left n w e h more = rw (h, attempts_from) (rw more refl)

  attempts_from-over :
      (left n : ℕ) (w : W) (e : E)
      → (fn n w).0 ≡ threw e
      → wants_retry fn options policy e n ≡ false
      → attempts_from fn options policy (suc left) n w ≡ (threw e, (fn n w).1)
  unfolding attempts_from
  attempts_from-over left n w e h over = rw (h, attempts_from) (rw over refl)

-- The log grows by a trail.
abbrev Grows :
    {A E W : Type 0}
    → (E → ℕ → Bool)
    → ℕ
    → ℕ
    → List (Entry A E)
    → Attempted A E × (List (Entry A E) × W)
    → Type 0
Grows {A} {E} wants left n log r =
    (entries : List (Entry A E)) × (r.1.0 ≡ log ++ entries) × IsTrail wants left n entries r.0

abbrev lift_retry :
    {A E W : Type 0}
    → Option (RetryAttemptInfo E → W → W)
    → Option (RetryAttemptInfo E → List (Entry A E) × W → List (Entry A E) × W)
lift_retry none = none
lift_retry (some f) = some (λ info p. (p.0, f info p.1))

-- The same options, beside a log.
abbrev pub beside_log :
    {A E W : Type 0}
    → ExecuteWithRetryOptions E W
    → ExecuteWithRetryOptions E (List (Entry A E) × W)
beside_log o = record {
  should_retry = o.should_retry;
  on_retry = lift_retry o.on_retry;
  sleep = λ ms p. (p.0, o.sleep ms p.1);
  random = o.random;
}

module _ {A E W : Type 0} (fn : ℕ → W → Attempted A E × W) (options : ExecuteWithRetryOptions E W)
    (policy : RetryPolicy) where
  abbrev pub wants : E → ℕ → Bool
  wants = wants_retry (logging fn) (beside_log options) policy

  told-log :
      (info : RetryAttemptInfo E) (p : List (Entry A E) × W)
      → (told (logging fn) (beside_log options) policy info p).0 ≡ p.0
  unfolding told
  told-log info p =
      elim options.on_retry
        as (λ o.
          (elim (lift_retry {A = A} o) as (λ x. List (Entry A E) × W) [
            | none ↦ p
            | some f ↦ f info p
          ]).0
          ≡ p.0) [ none ↦ refl | some f ↦ refl ]

  pause-log :
      (e : E) (n : ℕ) (p : List (Entry A E) × W)
      → (pause (logging fn) (beside_log options) policy e n p).0 ≡ p.0
  unfolding pause
  pause-log e n p =
      let delay : ℕ = compute_backoff_ms n policy (options.random n) in
      elim (Bool-cases (nat_eq (compute_backoff_ms n policy (options.random n)) 0)) [
        | inl at_once ↦
            rw (at_once, pause) (told-log (record { attempt = n; delay_ms = delay; error = e }) p)
        | inr later ↦
            rw (later, pause) (told-log (record { attempt = n; delay_ms = delay; error = e }) p)
      ]

  attempts_from-Grows :
      (left n : ℕ) (p : List (Entry A E) × W)
      → Grows wants left n p.0 (attempts_from (logging fn) (beside_log options) policy left n p)
  attempts_from-Grows zero n p = unfold attempts_from in go (fn n p.1).0
    where
      go :
          (o : Attempted A E)
          → Grows {W = W} wants zero n p.0 (o, (p.0 ++ (n, o) ∷ [], (fn n p.1).1))
      go (returned a) = ((n, returned a) ∷ [], refl, ends_well zero n a)
      go (threw e) = ((n, threw e) ∷ [], refl, used_up n e)
  attempts_from-Grows (suc left) n p = go (fn n p.1).0 refl (attempts_from-Grows left (suc n))
    where
      next : E → List (Entry A E) × W
      next e = pause (logging fn) (beside_log options) policy e n (logging fn n p).1

      go :
          (o : Attempted A E)
          → (fn n p.1).0 ≡ o
          → ((q : List (Entry A E) × W)
              → Grows wants left
                  (suc n)
                  q.0
                  (attempts_from (logging fn) (beside_log options) policy left (suc n) q))
          → Grows wants
              (suc left)
              n
              p.0
              (attempts_from (logging fn) (beside_log options) policy (suc left) n p)
      go (returned a) h ih =
          subst (Grows wants (suc left) n p.0)
            (sym (attempts_from-returned (logging fn) (beside_log options) policy left n p a h))
            ((n, returned a) ∷ [], ap (λ o. p.0 ++ (n, o) ∷ []) h, ends_well (suc left) n a)
      go (threw e) h ih = elim (Bool-cases (wants e n)) [
        | inr no_more ↦
            subst (Grows wants (suc left) n p.0)
              (sym
                (attempts_from-over (logging fn) (beside_log options) policy left n p e h no_more))
              ((n, threw e) ∷ [], ap (λ o. p.0 ++ (n, o) ∷ []) h, given_up (suc left) n e no_more)
        | inl more ↦
            let (entries, grown, trail) : Grows wants left (suc n) (next e).0
                (attempts_from (logging fn) (beside_log options) policy left (suc n) (next e)) =
              ih (next e) in
            subst (Grows wants (suc left) n p.0)
              (sym (attempts_from-again (logging fn) (beside_log options) policy left n p e h more))
              (
                (n, threw e) ∷ entries,
                grown
                    ∙ ap (λ l. l ++ entries)
                        (pause-log e n (logging fn n p).1 ∙ ap (λ o. p.0 ++ (n, o) ∷ []) h)
                    ∙ append_assoc p.0 ((n, threw e) ∷ []) entries,
                again left n e entries _ more trail,
              )
      ]

-- A policy that is not refused allows at least one attempt.
normalize_retry_policy-cases :
    (p : RetryPolicy)
    → ((message : String) × (normalize_retry_policy p ≡ refused message))
      ⊎ ((normalize_retry_policy p ≡ normal p) × (1 ≤ p.max_attempts))
unfolding normalize_retry_policy
normalize_retry_policy-cases p = elim (Bool-cases (ltb p.max_attempts 1)) [
  | inl none_at_all ↦
      inl ("RetryPolicy.maxAttempts must be >= 1", rw (none_at_all, normalize_retry_policy) refl)
  | inr some_left ↦ elim (Bool-cases (ltb p.max_backoff_ms p.initial_backoff_ms)) [
    | inl crossed ↦ inl (
      "RetryPolicy.maxBackoffMs must be >= initialBackoffMs",
      rw (some_left, normalize_retry_policy) (rw crossed refl),
    )
    | inr fine ↦
        inr (rw (some_left, normalize_retry_policy) (rw fine refl), ground (arith, some_left))
  ]
]

module _ {A E W : Type 0} (fn : ℕ → W → Attempted A E × W)
    (options : ExecuteWithRetryOptions E W) where
  execute_with_retry-refused :
      (policy : RetryPolicy) (message : String) (w : List (Entry A E) × W)
      → normalize_retry_policy policy ≡ refused message
      → execute_with_retry (logging fn) policy (beside_log options) w ≡ (bad_policy message, w)
  unfolding execute_with_retry
  execute_with_retry-refused policy message w h = rw (h, execute_with_retry) refl

  execute_with_retry-normal :
      (policy : RetryPolicy) (w : List (Entry A E) × W)
      → normalize_retry_policy policy ≡ normal policy
      → execute_with_retry (logging fn) policy (beside_log options) w ≡ (
          let r : Attempted A E × (List (Entry A E) × W) =
            attempts_from (logging fn) (beside_log options) policy (policy.max_attempts - 1) 1 w in
          (executed r.0, r.1))
  unfolding execute_with_retry
  execute_with_retry-normal policy w h = rw (h, execute_with_retry) refl

  -- A policy that is refused tries nothing. Another makes attempts with the numbers 1, 2 and so on, at most
  -- as many as it allows: each but the last threw an error that was to be retried, and the outcome is that
  -- of the last one, which returned, used up the policy, or threw an error that was not to be retried.
  pub execute_with_retry-IsTrail :
      (policy : RetryPolicy) (w : W)
      → ((message : String) × (execute_with_retry (logging fn) policy (beside_log options) ([], w)
            ≡ (bad_policy message, ([], w))))
        ⊎ ((outcome : Attempted A E) × (log : List (Entry A E)) × (after : W) × (execute_with_retry
                (logging fn)
                policy
                (beside_log options)
                ([], w)
              ≡ (executed outcome, (log, after)))
            × IsTrail (wants fn options policy) (policy.max_attempts - 1) 1 log outcome
            × (length log ≤ policy.max_attempts))
  execute_with_retry-IsTrail policy w = elim (normalize_retry_policy-cases policy) [
    | inl (message, h) ↦ inl (message, execute_with_retry-refused policy message ([], w) h)
    | inr (h, least) ↦
        let (entries, grown, trail) : Grows (wants fn options policy) (policy.max_attempts - 1) 1 []
            (attempts_from (logging fn) (beside_log options) policy (policy.max_attempts - 1) 1
              ([], w)) =
          attempts_from-Grows fn options policy (policy.max_attempts - 1) 1 ([], w) in
        let r : Attempted A E × (List (Entry A E) × W) =
          attempts_from (logging fn) (beside_log options) policy (policy.max_attempts - 1) 1
            ([], w) in
        inr (
          r.0,
          entries,
          r.1.1,
          execute_with_retry-normal policy ([], w) h
              ∙ ap (λ (l : List (Entry A E)). (executed r.0, (l, r.1.1))) grown,
          trail,
          omega (
            arith,
            IsTrail-length (wants fn options policy) (policy.max_attempts - 1) 1 entries r.0 trail,
            least,
          ),
        )
  ]
