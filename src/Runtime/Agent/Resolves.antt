-- ===== src/Runtime/Agent/Resolves.antt =====
-- A promise of core/src/runtime/agent-runtime.ts resolves at the latest with its timer, while the agent runs.
use oacp.Prelude.{
  ℕ, zero, suc, String, ◌≡◌, refl, sym, ap, ◌∙◌, Bool, true, false, ◌||◌, Option, none, some, List,
  [], ◌∷◌, ◌++◌, or_else, all, get_elem?, set, get_elem?-set-some, is_some, arith, Bool-cases,
  Option-cases, inl, inr,
}
use oacp.Js.Map
use oacp.Js.Map.{Map}
use oacp.Protocol.Messages.{TaskResponseMessage}
use oacp.Routing.Bus.Defs.{Bus}
use oacp.Protocol.Errors.{OacpError}
use oacp.Runtime.Lifecycle.{running, can_transition}
use oacp.Runtime.Agent.{
  ResponseWait, AgentRuntimeOptions, AgentRuntime, create_agent_runtime, is_running, start,
  create_response_promise, resolved, update_wait, resolve_pending_response, expire_response,
}
use oacp.Runtime.Agent.Tasks.{dispatch, promise_for, put_graph_context, consume_graph_context}
use oacp.Runtime.Agent.Events.{
  AgentEvent, starts, stops, dispatches, undoes, persists, receives, expires, step, run,
}

-- A promise has resolved, or its timer is set.
abbrev pub is_live : ResponseWait → Bool
is_live w = is_some w.settled || w.timer_set

-- The events but the stopping of the agent and the undoing of a request whose sending failed.
abbrev pub goes_on : AgentEvent → Bool
goes_on stops = false
goes_on (undoes id waits) = false
goes_on _ = true

all-set :
    (ws : List ResponseWait) (k : ℕ) (v : ResponseWait)
    → all is_live ws ≡ true
    → is_live v ≡ true
    → all is_live (set ws k v) ≡ true
all-set [] k v h i = refl
all-set (x ∷ ws) zero v h i = ground (arith, h, i)
all-set (x ∷ ws) (suc k) v h i = ground (arith, h, all-set ws k v, i)

all-concat :
    (ws : List ResponseWait) (v : ResponseWait)
    → all is_live ws ≡ true
    → is_live v ≡ true
    → all is_live (ws ++ v ∷ []) ≡ true
all-concat [] v h i = ground (arith, i)
all-concat (x ∷ ws) v h i = ground (arith, h, all-concat ws v, i)

all-get :
    (ws : List ResponseWait) (k : ℕ) (w : ResponseWait)
    → all is_live ws ≡ true
    → get_elem? ws k ≡ some w
    → is_live w ≡ true
all-get [] k w h e = absurd (ground (arith, e))
all-get (x ∷ ws) zero w h e =
    ap (λ (o : Option ResponseWait). is_live (or_else o x)) (sym e) ∙ ground (arith, h)
all-get (x ∷ ws) (suc k) w h e = all-get ws k w (ground (arith, h)) e

resolve_pending_response-live :
    (m : TaskResponseMessage) (a : AgentRuntime)
    → all is_live a.waits ≡ true
    → all is_live (resolve_pending_response m a).waits ≡ true
unfolding resolve_pending_response update_wait
resolve_pending_response-live m a h =
    elim (Option-cases (Map.get a.pending_responses m.in_reply_to)) [
      | inl unknown ↦ rw (unknown, resolve_pending_response) h
      | inr (k, e) ↦ elim (Option-cases (get_elem? a.waits k)) [
        | inl out ↦ rw (e, resolve_pending_response) (rw (out, update_wait) h)
        | inr (w, f) ↦
            rw (e, resolve_pending_response)
              (rw (f, update_wait) (all-set a.waits k (resolved (some m) w) h refl))
      ]
    ]

expire_response-live :
    (k : ℕ) (a : AgentRuntime)
    → all is_live a.waits ≡ true
    → all is_live (expire_response k a).waits ≡ true
unfolding expire_response
expire_response-live k a h = elim (Option-cases (get_elem? a.waits k)) [
  | inl out ↦ rw (out, expire_response) h
  | inr (w, e) ↦ rw (e, expire_response) (ground (arith, h, all-set a.waits k (resolved none w)))
]

promise_for-live :
    (wanted : Bool) (id : String) (a : AgentRuntime)
    → all is_live a.waits ≡ true
    → all is_live (promise_for wanted id a).1.waits ≡ true
unfolding create_response_promise
promise_for-live false id a h = h
promise_for-live true id a h =
    all-concat a.waits (record { message_id = id; timer_set = true; settled = none }) h refl

put_graph_context-live :
    (id : String) (parent : Option String) (a : AgentRuntime)
    → all is_live a.waits ≡ true
    → all is_live (put_graph_context id parent a).waits ≡ true
put_graph_context-live id none a h = h
put_graph_context-live id (some p) a h = h

start-live :
    (bus : Bus) (a : AgentRuntime) (invalid : Option OacpError)
    → all is_live a.waits ≡ true
    → all is_live (step bus a (starts invalid)).waits ≡ true
unfolding step start
start-live bus a none h = elim (Bool-cases (can_transition a.state running)) [
  | inl can ↦ rw (can, start) h
  | inr cannot ↦ rw (cannot, start) h
]
start-live bus a (some e) h = elim (Bool-cases (can_transition a.state running)) [
  | inl can ↦ rw (can, start) h
  | inr cannot ↦ rw (cannot, start) h
]

step-live :
    (bus : Bus) (a : AgentRuntime) (e : AgentEvent)
    → goes_on e ≡ true
    → all is_live a.waits ≡ true
    → all is_live (step bus a e).waits ≡ true
unfolding step dispatch consume_graph_context
step-live bus a (starts invalid) g h = start-live bus a invalid h
step-live bus a stops g h = absurd (ground (arith, g))
step-live bus a (dispatches fresh p) g h = elim (Bool-cases (is_running a)) [
  | inl on ↦
      rw (on, dispatch)
        (put_graph_context-live fresh.message_id p.parent_message_id _
          (promise_for-live (or_else p.wait_for_response true) fresh.message_id a h))
  | inr off ↦ rw (off, dispatch) h
]
step-live bus a (undoes id waits) g h = absurd (ground (arith, g))
step-live bus a (persists id) g h = h
step-live bus a (receives m) g h = resolve_pending_response-live m a h
step-live bus a (expires k) g h = expire_response-live k a h

run-live :
    (bus : Bus) (a : AgentRuntime) (es : List AgentEvent)
    → all goes_on es ≡ true
    → all is_live a.waits ≡ true
    → all is_live (run bus a es).waits ≡ true
unfolding run
run-live bus a [] g h = h
run-live bus a (e ∷ es) g h =
    run-live bus (step bus a e) es (ground (arith, g)) (step-live bus a e (ground (arith, g)) h)

expire_response-off :
    (a : AgentRuntime) (k : ℕ) (w : ResponseWait)
    → get_elem? a.waits k ≡ some w
    → w.timer_set ≡ false
    → expire_response k a ≡ a
unfolding expire_response
expire_response-off a k w e off = rw (e, expire_response) (ground (arith, off))

-- The callback of the timer of a promise.
expire_response-settles :
    (a : AgentRuntime) (k : ℕ) (w : ResponseWait)
    → get_elem? a.waits k ≡ some w
    → is_live w ≡ true
    → (v : ResponseWait) × (get_elem? (expire_response k a).waits k ≡ some v)
      × (is_some v.settled ≡ true)
unfolding expire_response
expire_response-settles a k w e l = elim (Bool-cases w.timer_set) [
  | inl on ↦ (
    resolved none w,
    rw (e, expire_response) (rw on (get_elem?-set-some a.waits k w (resolved none w) e)),
    refl,
  )
  | inr off ↦ (
    w,
    ap (λ b. get_elem? b.waits k) (expire_response-off a k w e off) ∙ e,
    ground (arith, l, off),
  )
]

-- While an agent is not stopped and no sending fails, every promise of a response resolves: after any events,
-- in any order, each of them has resolved once its timer has gone off, if it had not before.
pub run-resolves :
    (bus : Bus) (options : AgentRuntimeOptions) (es : List AgentEvent) (k : ℕ) (w : ResponseWait)
    → all goes_on es ≡ true
    → get_elem? (run bus (create_agent_runtime options) es).waits k ≡ some w
    → (v : ResponseWait) × (get_elem?
          (step bus (run bus (create_agent_runtime options) es) (expires k)).waits
          k
        ≡ some v)
      × (is_some v.settled ≡ true)
unfolding step
run-resolves bus options es k w g e =
    let a : AgentRuntime = run bus (create_agent_runtime options) es in
    expire_response-settles (run bus (create_agent_runtime options) es) k w e (
      all-get a.waits k w
        (run-live bus (create_agent_runtime options) es g (unfold create_agent_runtime in refl)) e)
