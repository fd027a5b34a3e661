-- ===== src/Routing/Bus/Reachable.antt =====
-- What holds in every state of the bus that calls lead to.
use oacp.Prelude.{
  ℕ, String, ◌≡◌, refl, Option, none, some, List, [], ◌∷◌, inl, inr, Option-cases, if_ind, is_some,
}
use oacp.Js.Map
use oacp.Protocol.Errors.{Result-cases}
use oacp.Protocol.Json.{Json}
use oacp.Protocol.Messages.{OacpMessage, message_id}
use oacp.Routing.Router.{resolve_route}
use oacp.Routing.Types.{SendOutcome, DeliveryContext}
use oacp.Routing.Bus.Defs.{
  Bus, BusOptions, create, close, open_bus, clear_traces, replay_trace_message,
  find_agents_by_capability,
}
use oacp.Routing.Bus.Delivery.{
  Host, run_handler, deliver_one, deliver, record_trace, route_and_deliver, router_state,
  router_options, validation, send, send_raw,
}
use oacp.Routing.Bus.Registration.{declares, has-find_agents_by_capability}
use oacp.Routing.Bus.Calls.{
  Call, registers, unregisters, sends, sends_raw, waits, expires, replays, closes, opens, clears,
  step, run,
}
use oacp.Routing.Bus.Soundness.{
  IsSound, create-IsSound, register-IsSound, unregister-IsSound, with_mailboxes-IsSound,
  post-IsSound, after_wait-IsSound, expire-IsSound,
}
use oacp.Routing.TraceStore.{get_message_by_id}
use oacp.Js.Set

-- What handlers, and the tasks that run while they are awaited, have to keep: they reach the bus by
-- its methods only.
abbrev pub Behaves : Host → Type 0
Behaves host =
    (h : ℕ) (m : OacpMessage) (context : DeliveryContext) (b : Bus)
    → IsSound b
    → IsSound (host.invoke h m context b).1

record_trace-IsSound : (b : Bus) (m : OacpMessage) → IsSound b → IsSound (record_trace b m)
unfolding record_trace
record_trace-IsSound b m v =
    if_ind IsSound b.record_traces (λ _. with_mailboxes-IsSound b _ refl refl v.exclusive v)
      (λ _. v)

replay-IsSound : (b : Bus) (m : OacpMessage) → IsSound b → IsSound (replay_trace_message b m)
unfolding replay_trace_message
replay-IsSound b m v =
    if_ind IsSound b.record_traces
      (λ _.
        if_ind IsSound (is_some (get_message_by_id b.trace_store (message_id m))) (λ _. v)
          (λ _. with_mailboxes-IsSound b _ refl refl v.exclusive v))
      (λ _. v)

module _ (host : Host) (behaves : Behaves host) where
  run_handler-IsSound :
      (h : Option ℕ) (m : OacpMessage) (context : DeliveryContext) (b : Bus)
      → IsSound b
      → IsSound (run_handler host h m context b).1
  unfolding run_handler
  run_handler-IsSound none m context b v = v
  run_handler-IsSound (some h) m context b v = behaves h m context b v

  deliver_one-IsSound :
      (at : String) (m : OacpMessage) (uri : String) (b : Bus)
      → IsSound b
      → IsSound (deliver_one host at m uri b).1
  unfolding deliver_one
  deliver_one-IsSound at m uri b v = elim (Option-cases (Map.get b.agents uri)) [
    | inl absent ↦ rw (absent, deliver_one) v
    | inr (r, e) ↦
        rw (e, deliver_one) (run_handler-IsSound r.handler m _ _ (post-IsSound b r.mailbox m v))
  ]

  deliver-IsSound :
      (at : String) (m : OacpMessage) (uris : List String) (b : Bus)
      → IsSound b
      → IsSound (deliver host at m uris b).1
  unfolding deliver
  deliver-IsSound at m [] b v = v
  deliver-IsSound at m (uri ∷ uris) b v =
      deliver-IsSound at m uris _ (deliver_one-IsSound at m uri b v)

  route_and_deliver-IsSound :
      (at : String) (m : OacpMessage) (b : Bus)
      → IsSound b
      → IsSound (route_and_deliver host at m b).1
  unfolding route_and_deliver
  route_and_deliver-IsSound at m b v =
      elim (Result-cases
        (resolve_route host.collation m (router_state b) b.trace_store (router_options b))) [
          | inl (rs, e) ↦ rw (e, route_and_deliver) (deliver-IsSound at m rs b v)
          | inr (e, refused) ↦ rw (refused, route_and_deliver) v
        ]

  pub send-IsSound :
      (at : String) (m : OacpMessage) (b : Bus) → IsSound b → IsSound (send host at m b).1
  unfolding send
  send-IsSound at m b v =
      if_ind (λ (r : SendOutcome × Bus). IsSound r.1) b.is_open
        (λ _. elim (Option-cases (validation host b.validate_on_send m)) [
          | inr (e, invalid) ↦ rw (invalid, send) v
          | inl valid ↦
              rw (valid, send) (route_and_deliver-IsSound at m _ (record_trace-IsSound b m v))
        ])
        (λ _. v)

  send_raw-IsSound :
      (at : String) (payload : Json) (b : Bus) → IsSound b → IsSound (send_raw host at payload b).1
  unfolding send_raw
  send_raw-IsSound at payload b v =
      if_ind (λ (r : SendOutcome × Bus). IsSound r.1) b.is_open
        (λ _. elim (Result-cases (host.parse payload)) [
          | inr (e, invalid) ↦ rw (invalid, send_raw) v
          | inl (m, valid) ↦ rw (valid, send_raw) (send-IsSound at m b v)
        ])
        (λ _. v)

  step-IsSound : (b : Bus) (c : Call) → IsSound b → IsSound (step host b c)
  unfolding step close open_bus clear_traces
  step-IsSound b (registers uri handler o) v = register-IsSound b uri handler o v
  step-IsSound b (unregisters uri) v = unregister-IsSound b uri v
  step-IsSound b (sends at m) v = send-IsSound at m b v
  step-IsSound b (sends_raw at payload) v = send_raw-IsSound at payload b v
  step-IsSound b (waits uri) v = after_wait-IsSound b uri v
  step-IsSound b (expires w) v = expire-IsSound w b v
  step-IsSound b (replays m) v = replay-IsSound b m v
  step-IsSound b closes v = with_mailboxes-IsSound b _ refl refl v.exclusive v
  step-IsSound b opens v = with_mailboxes-IsSound b _ refl refl v.exclusive v
  step-IsSound b clears v = with_mailboxes-IsSound b _ refl refl v.exclusive v

  run-IsSound : (b : Bus) (cs : List Call) → IsSound b → IsSound (run host b cs)
  unfolding run
  run-IsSound b [] v = v
  run-IsSound b (c ∷ cs) v = run-IsSound (step host b c) cs (step-IsSound b c v)

  -- Where handlers keep the bus sound, every sequence of calls on a new bus leads to a bus whose capability
  -- index holds exactly what the registered agents declare, with no empty entry, and whose mailboxes
  -- never hold a message while somebody waits for one.
  pub run-create-IsSound : (o : BusOptions) (cs : List Call) → IsSound (run host (create o) cs)
  run-create-IsSound o cs = run-IsSound (create o) cs (create-IsSound o)

  -- Where handlers keep the bus sound, after every sequence of calls on a new bus the agents that are
  -- found under a capability are exactly those that are registered with it at that moment.
  pub find_agents-run :
      (o : BusOptions) (cs : List Call) (capability a : String)
      → Set.has (find_agents_by_capability host.collation (run host (create o) cs) capability) a
        ≡ declares (run host (create o) cs) a capability
  find_agents-run o cs capability a =
      has-find_agents_by_capability host.collation _ capability a (run-create-IsSound o cs).indexed
