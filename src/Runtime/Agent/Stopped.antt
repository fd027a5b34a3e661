-- ===== src/Runtime/Agent/Stopped.antt =====
-- Which promises of core/src/runtime/agent-runtime.ts resolve, and which are left by `stop`.
pub mod Cleared
use oacp.Prelude.{
  ℕ, zero, suc, String, ◌≡◌, refl, sym, ap, ◌∙◌, Bool, true, false, Option, none, some, List, [],
  ◌∷◌, or_else, any, get_elem?, set, get_elem?-set-some, ◌⊎◌, nat_eq, arith, Bool-cases,
  Option-cases, inl, inr, if◌then◌else◌, subst,
}
use oacp.Js.Map
use oacp.Js.Map.{Map}
use oacp.Protocol.Errors.{Result, ok, err}
use oacp.Protocol.Messages.{TaskResponseMessage}
use oacp.Routing.Bus.Defs.{Bus, unregister}
use oacp.Runtime.Lifecycle.{created, running, stopped, can_transition, same_state}
use oacp.Runtime.Agent.{
  ResponseWait, AgentRuntime, is_running, start, resolved, cleared, update_wait,
  resolve_pending_response, cancel_response_wait, expire_response, clear_timers,
  clear_pending_responses, stop, stop_error,
}
use oacp.Runtime.Agent.Tasks.{dispatch, undo_dispatch, consume_graph_context}
use oacp.Runtime.Agent.Events.{
  AgentEvent, starts, stops, dispatches, undoes, persists, receives, expires, step, run,
  agent_after,
}
use oacp.Runtime.Agent.Stopped.Cleared.{get_elem?-set-other, clear_timers-any, any-values}

-- A stopped agent whose promise is lost: no timer is set for it and no entry leads to it.
record IsLost (k : ℕ) (w : ResponseWait) (a : AgentRuntime) : Type 0 where
  pub state : a.state ≡ stopped
  pub pending : a.pending_responses ≡ []
  pub wait : get_elem? a.waits k ≡ some (cleared w)

IsLost-of :
    (k : ℕ) (w : ResponseWait) (a b : AgentRuntime)
    → a.state ≡ b.state
    → a.pending_responses ≡ b.pending_responses
    → a.waits ≡ b.waits
    → IsLost k w a
    → IsLost k w b
IsLost-of k w a b p q r l = record {
  state = sym p ∙ l.state;
  pending = sym q ∙ l.pending;
  wait = ap (λ ws. get_elem? ws k) (sym r) ∙ l.wait;
}

get-nil : (m : Map ℕ) (id : String) → m ≡ [] → Map.get m id ≡ none
unfolding Map.get
get-nil m id e = ap (λ (l : Map ℕ). Map.get l id) e

delete-nil : (m : Map ℕ) (id : String) → m ≡ [] → Map.delete m id ≡ []
unfolding Map.delete
delete-nil m id e = ap (λ (l : Map ℕ). Map.delete l id) e

expire_response-IsLost :
    (k : ℕ) (w : ResponseWait) (a : AgentRuntime) (j : ℕ)
    → IsLost k w a
    → IsLost k w (expire_response j a)
unfolding expire_response
expire_response-IsLost k w a j l = elim (Option-cases (get_elem? a.waits j)) [
  | inl out ↦ rw (out, expire_response) l
  | inr (v, e) ↦ rw (e, expire_response) (go v e (Bool-cases v.timer_set))
]
  where
    expired : ResponseWait → AgentRuntime
    expired v = record a {
      pending_responses = Map.delete a.pending_responses v.message_id;
      waits = set a.waits j (resolved none v);
    }

    go :
        (v : ResponseWait)
        → get_elem? a.waits j ≡ some v
        → (v.timer_set ≡ true) ⊎ (v.timer_set ≡ false)
        → IsLost k w (if v.timer_set then expired v else a)
    go v e (inr off) = subst (λ b. IsLost k w (if b then expired v else a)) (sym off) l
    go v e (inl on) =
        subst (λ b. IsLost k w (if b then expired v else a)) (sym on)
          (record {
            state = l.state;
            pending = delete-nil a.pending_responses v.message_id l.pending;
            wait =
                get_elem?-set-other a.waits j k (resolved none v)
                  (differs v e on (Bool-cases (nat_eq j k)))
                ∙ l.wait;
          })
      where
        differs :
            (v : ResponseWait)
            → get_elem? a.waits j ≡ some v
            → v.timer_set ≡ true
            → (nat_eq j k ≡ true) ⊎ (nat_eq j k ≡ false)
            → nat_eq j k ≡ false
        differs v e on (inr d) = d
        differs v e on (inl same) =
            let at : j ≡ k = ground (arith, same) in
            absurd (
              ground (
                arith,
                on,
                ap (λ (o : Option ResponseWait). (or_else o v).timer_set)
                    (sym e ∙ ap (get_elem? a.waits) at ∙ l.wait),
              ))

resolve_pending_response-IsLost :
    (k : ℕ) (w : ResponseWait) (a : AgentRuntime) (m : TaskResponseMessage)
    → IsLost k w a
    → IsLost k w (resolve_pending_response m a)
unfolding resolve_pending_response
resolve_pending_response-IsLost k w a m l =
    rw (get-nil a.pending_responses m.in_reply_to l.pending, resolve_pending_response) l

cancel_response_wait-IsLost :
    (k : ℕ) (w : ResponseWait) (a : AgentRuntime) (id : String)
    → IsLost k w a
    → IsLost k w (cancel_response_wait id a)
unfolding cancel_response_wait
cancel_response_wait-IsLost k w a id l =
    rw (get-nil a.pending_responses id l.pending, cancel_response_wait) l

undo_dispatch-IsLost :
    (k : ℕ) (w : ResponseWait) (a : AgentRuntime) (id : String) (waits : Bool)
    → IsLost k w a
    → IsLost k w (undo_dispatch id waits a)
unfolding undo_dispatch
undo_dispatch-IsLost k w a id false l = IsLost-of k w a _ refl refl refl l
undo_dispatch-IsLost k w a id true l =
    cancel_response_wait-IsLost k w _ id (IsLost-of k w a _ refl refl refl l)

step-IsLost :
    (bus : Bus) (k : ℕ) (w : ResponseWait) (a : AgentRuntime) (e : AgentEvent)
    → IsLost k w a
    → IsLost k w (step bus a e)
unfolding step start stop dispatch consume_graph_context
step-IsLost bus k w a (starts invalid) l =
    let never : can_transition a.state running ≡ false =
      ap (λ s. can_transition s running) l.state in
    rw (never, start) l
step-IsLost bus k w a stops l =
    subst
      (λ s. IsLost k w (
        agent_after a (elim s as (λ x. Result (AgentRuntime × Bus)) [
          | stopped ↦ ok (a, bus)
          | created ↦ err (stop_error a)
          | running ↦
              ok (record (clear_pending_responses a) { state = stopped }, (unregister bus a.id).0)
        ])))
      (sym l.state) l
step-IsLost bus k w a (dispatches fresh p) l =
    let not_now : is_running a ≡ false = ap (λ s. same_state s running) l.state in
    rw (not_now, dispatch) l
step-IsLost bus k w a (undoes id waits) l = undo_dispatch-IsLost k w a id waits l
step-IsLost bus k w a (persists id) l = IsLost-of k w a _ refl refl refl l
step-IsLost bus k w a (receives m) l = resolve_pending_response-IsLost k w a m l
step-IsLost bus k w a (expires j) l = expire_response-IsLost k w a j l

run-IsLost :
    (bus : Bus) (k : ℕ) (w : ResponseWait) (a : AgentRuntime) (es : List AgentEvent)
    → IsLost k w a
    → IsLost k w (run bus a es)
unfolding run
run-IsLost bus k w a [] l = l
run-IsLost bus k w a (e ∷ es) l = run-IsLost bus k w (step bus a e) es (step-IsLost bus k w a e l)

stop-IsLost :
    (bus : Bus) (k : ℕ) (w : ResponseWait) (a : AgentRuntime) (id : String)
    → a.state ≡ running
    → Map.get a.pending_responses id ≡ some k
    → get_elem? a.waits k ≡ some w
    → IsLost k w (step bus a stops)
unfolding step stop clear_pending_responses
stop-IsLost bus k w a id on e at =
    subst
      (λ s. IsLost k w (
        agent_after a (elim s as (λ x. Result (AgentRuntime × Bus)) [
          | stopped ↦ ok (a, bus)
          | created ↦ err (stop_error a)
          | running ↦
              ok (record (clear_pending_responses a) { state = stopped }, (unregister bus a.id).0)
        ])))
      (sym on)
      (record {
        state = refl;
        pending = refl;
        wait =
            clear_timers-any (Map.values a.pending_responses) k a.waits w
              (any-values a.pending_responses id k e) at;
      })

-- A promise that a running agent waits for, and that has not resolved when the agent is stopped, never
-- resolves, whatever happens to the agent afterwards: its response and its timeout come to nothing.
pub stop-never_settles :
    (bus : Bus) (a : AgentRuntime) (id : String) (k : ℕ) (w : ResponseWait) (es : List AgentEvent)
    → a.state ≡ running
    → Map.get a.pending_responses id ≡ some k
    → get_elem? a.waits k ≡ some w
    → w.settled ≡ none
    → (v : ResponseWait) × (get_elem? (run bus (step bus a stops) es).waits k ≡ some v)
      × (v.settled ≡ none)
stop-never_settles bus a id k w es on e at open_wait = (
  cleared w,
  (run-IsLost bus k w (step bus a stops) es (stop-IsLost bus k w a id on e at)).wait,
  open_wait,
)
