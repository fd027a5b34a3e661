-- ===== src/Runtime/Agent/Correlation/Table.antt =====
-- What responses, cancellations and timers of core/src/runtime/agent-runtime.ts do to the table of promises.
use oacp.Prelude.{
  ℕ, String, ◌≡◌, refl, sym, ap, ◌∙◌, true, false, Option, none, some, List, [], ◌∷◌, ◌++◌, or_else,
  length, get_elem?, set, arith, ◌==◌, eq_iff, Bool-cases, Option-cases, inl, inr, All, All-set,
  All-append, All-get, if◌then◌else◌, subst,
}
use oacp.Js.Map
use oacp.Js.Map.{Map}
use oacp.Protocol.Messages.{TaskResponseMessage}
use oacp.Runtime.Agent.{
  ResponseWait, AgentRuntime, resolved, cleared, update_wait, resolve_pending_response,
  cancel_response_wait, expire_response,
}
use oacp.Runtime.Agent.Correlation.Waits.{
  IsAnswered, names, IsCorrelated, get_elem?-names, names-set, names-append, get_elem?-append,
  get_elem?-length, update_wait-names, update_wait-answered, cleared-IsAnswered,
  resolved-IsAnswered,
}

-- The table and the promises are all that it depends on.
abbrev Correlated : Map ℕ → List ResponseWait → Type 0
Correlated pending ws =
    ((id : String) (k : ℕ) → Map.get pending id ≡ some k → get_elem? (names ws) k ≡ some id)
    × All IsAnswered ws

delete-Correlated :
    (pending : Map ℕ) (j : String) (ws ws' : List ResponseWait)
    → names ws' ≡ names ws
    → All IsAnswered ws'
    → Correlated pending ws
    → Correlated (Map.delete pending j) ws'
delete-Correlated pending j ws ws' same v c = (
  (λ id k h.
      ap (λ l. get_elem? l k) same ∙ c.0 id k (ground (arith, h, Map.get-delete pending j id))),
  v,
)

pub set-Correlated :
    (pending : Map ℕ) (id : String) (ws : List ResponseWait)
    → Correlated pending ws
    → Correlated
        (Map.set pending id (length ws))
        (ws ++ record { message_id = id; timer_set = true; settled = none } ∷ [])
unfolding IsAnswered
set-Correlated pending id ws c =
    let w : ResponseWait = record { message_id = id; timer_set = true; settled = none } in
    (
      (λ j k h. ap (λ l. get_elem? l k) (names-append ws w) ∙ found j k h),
      All-append IsAnswered ws (w ∷ []) c.1 ((λ r e. absurd (ground (arith, e))), record {}),
    )
  where
    found :
        (j : String) (k : ℕ)
        → Map.get (Map.set pending id (length ws)) j ≡ some k
        → get_elem? (names ws ++ id ∷ []) k ≡ some j
    found j k h = elim (Bool-cases (id == j)) [
      | inl same ↦
          let at : k ≡ length ws = ground (arith, h, Map.get-set pending id j (length ws), same) in
          let name : id ≡ j = ground (arith, eq_iff id j, same) in
          subst (λ n. get_elem? (names ws ++ id ∷ []) n ≡ some j) (sym at)
            (get_elem?-length ws id ∙ ap some name)
      | inr other ↦
          get_elem?-append (names ws) k id j
            (c.0 j k (ground (arith, h, Map.get-set pending id j (length ws), other)))
    ]

pub of_pair : (a : AgentRuntime) → Correlated a.pending_responses a.waits → IsCorrelated a
of_pair a c = record { tracked = c.0; answered = c.1 }

pub to_pair : (a : AgentRuntime) → IsCorrelated a → Correlated a.pending_responses a.waits
to_pair a c = (c.tracked, c.answered)

-- A response that the table leads to a promise answers its message.
replies :
    (a : AgentRuntime) (m r : TaskResponseMessage) (k : ℕ) (w : ResponseWait)
    → IsCorrelated a
    → Map.get a.pending_responses m.in_reply_to ≡ some k
    → get_elem? a.waits k ≡ some w
    → some m ≡ some r
    → r.in_reply_to ≡ w.message_id
replies a m r k w c e at same =
    let named : some m.in_reply_to ≡ some w.message_id =
      sym (c.tracked m.in_reply_to k e) ∙ get_elem?-names a.waits k w at in
    sym (ap (λ (o : Option TaskResponseMessage). (or_else o m).in_reply_to) same)
    ∙ ap (λ (o : Option String). or_else o "") named

pub resolve_pending_response-IsCorrelated :
    (m : TaskResponseMessage) (a : AgentRuntime)
    → IsCorrelated a
    → IsCorrelated (resolve_pending_response m a)
unfolding resolve_pending_response
resolve_pending_response-IsCorrelated m a c =
    elim (Option-cases (Map.get a.pending_responses m.in_reply_to)) [
      | inl unknown ↦ rw (unknown, resolve_pending_response) c
      | inr (k, e) ↦
          rw (e, resolve_pending_response)
            (of_pair _ (
              delete-Correlated a.pending_responses m.in_reply_to a.waits
                (update_wait (resolved (some m)) k a.waits)
                (update_wait-names (resolved (some m)) k a.waits (λ w. refl))
                (update_wait-answered (resolved (some m)) k a.waits
                  (λ w at v.
                    resolved-IsAnswered (some m) w (λ r same. replies a m r k w c e at same) v)
                  c.answered)
                (to_pair a c)))
    ]

pub cancel_response_wait-IsCorrelated :
    (id : String) (a : AgentRuntime) → IsCorrelated a → IsCorrelated (cancel_response_wait id a)
unfolding cancel_response_wait
cancel_response_wait-IsCorrelated id a c = elim (Option-cases (Map.get a.pending_responses id)) [
  | inl unknown ↦ rw (unknown, cancel_response_wait) c
  | inr (k, e) ↦
      rw (e, cancel_response_wait)
        (of_pair _ (
          delete-Correlated a.pending_responses id a.waits (update_wait cleared k a.waits)
            (update_wait-names cleared k a.waits (λ w. refl))
            (update_wait-answered cleared k a.waits (λ w at v. cleared-IsAnswered w v) c.answered)
            (to_pair a c)))
]

pub expire_response-IsCorrelated :
    (k : ℕ) (a : AgentRuntime) → IsCorrelated a → IsCorrelated (expire_response k a)
unfolding expire_response
expire_response-IsCorrelated k a c = elim (Option-cases (get_elem? a.waits k)) [
  | inl out ↦ rw (out, expire_response) c
  | inr (w, e) ↦ elim (Bool-cases w.timer_set) [
    | inr off ↦ rw (e, expire_response) (if_ind_false w off)
    | inl on ↦ rw (e, expire_response) (if_ind_true w e on)
  ]
]
  where
    expired : ResponseWait → AgentRuntime
    expired w = record a {
      pending_responses = Map.delete a.pending_responses w.message_id;
      waits = set a.waits k (resolved none w);
    }

    if_ind_false :
        (w : ResponseWait)
        → w.timer_set ≡ false
        → IsCorrelated (if w.timer_set then expired w else a)
    if_ind_false w off = rw off c

    if_ind_true :
        (w : ResponseWait)
        → get_elem? a.waits k ≡ some w
        → w.timer_set ≡ true
        → IsCorrelated (if w.timer_set then expired w else a)
    if_ind_true w e on =
        subst (λ b. IsCorrelated (if b then expired w else a)) (sym on)
          (of_pair (expired w) (
            delete-Correlated a.pending_responses w.message_id a.waits
              (set a.waits k (resolved none w)) (names-set a.waits k w (resolved none w) e refl)
              (All-set IsAnswered a.waits k (resolved none w)
                (resolved-IsAnswered none w (λ r h. absurd (ground (arith, h)))
                  (All-get IsAnswered a.waits k w e c.answered))
                c.answered)
              (to_pair a c)))
