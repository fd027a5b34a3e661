-- ===== src/Routing/Bus/Delivery.antt =====
-- `send`, `sendRaw` and `deliver`. What the bus does not implement is the host's: the validator that
-- is injected (for messages, and for data that may be none), the registered handlers, and the orders of sorting.
use oacp.Prelude.{
  ℕ, String, Bool, true, false, not, Option, none, some, List, [], ◌∷◌, ◌++◌, all, if◌then◌else◌,
  nat_eq, get_elem?, set,
}
use oacp.Js.Map
use oacp.Js.Collation.{Collation}
use oacp.Protocol.Json.{Json, template}
use oacp.Protocol.Errors.{OacpError, routing_error, Result, ok, err}
use oacp.Protocol.Errors.Codes.{agent_not_registered, bus_closed, delivery_failed}
use oacp.Protocol.Messages.{OacpMessage, trace_id}
use oacp.Routing.TraceStore.{record_message}
use oacp.Routing.Router.{RouterState, RouterOptions, resolve_route}
use oacp.Routing.Types.{
  AgentMailbox, DeliveryContext, unroutable, thrown, DeliveryReport, SendOutcome, sent, failed,
}
use oacp.Routing.Bus.Defs.{Bus}

-- A handler may call the bus again, and other tasks run while it is awaited: it takes the bus to
-- any other state, and may throw an error with a message.
pub record Host : Type 0 where
  pub collation : Collation
  pub validate : OacpMessage → Option OacpError
  pub parse : Json → Result OacpMessage
  pub invoke : ℕ → OacpMessage → DeliveryContext → Bus → Option String × Bus

-- `clearTimeout(timer)`
unfoldable pub clear_timer : ℕ → List (ℕ × ℕ) → List (ℕ × ℕ)
clear_timer w [] = []
clear_timer w ((v, box) ∷ ts) = if nat_eq v w then clear_timer w ts else (v, box) ∷ clear_timer w ts

-- A message goes to the waiter that has waited longest, or to the end of the queue.
unfoldable pub post_to : Bus → ℕ → AgentMailbox → List ℕ → OacpMessage → Bus
unfolding clear_timer
post_to b i box [] m = record b {
  mailboxes = set b.mailboxes i (record { queue = box.queue ++ m ∷ []; waiters = [] });
}
post_to b i box (w ∷ ws) m = record b {
  mailboxes = set b.mailboxes i (record { queue = box.queue; waiters = ws });
  timers = clear_timer w b.timers;
  settled = b.settled ++ (w, some m) ∷ [];
}

unfoldable pub post : Bus → Option ℕ → OacpMessage → Bus
post b none m = b
post b (some i) m = elim (get_elem? b.mailboxes i) [
  | none ↦ b
  | some box ↦ post_to b i box box.waiters m
]

unfoldable pub run_handler :
    Host → Option ℕ → OacpMessage → DeliveryContext → Bus → Option String × Bus
run_handler host none m context b = (none, b)
run_handler host (some h) m context b = host.invoke h m context b

-- `catch (error)` turns what a handler throws into a failed report.
report_of : String → Option String → DeliveryReport
report_of uri none = record { agent_uri = uri; success = true; error = none }
report_of uri (some e) = record { agent_uri = uri; success = false; error = some (thrown e) }

unregistered_report : String → DeliveryReport
unregistered_report uri = record {
  agent_uri = uri;
  success = false;
  error = some (
      unroutable (
        routing_error agent_not_registered
          (template ("Agent \"" ∷ uri ∷ "\" is not registered" ∷ [])) []));
}

-- The delivery to one recipient, looked up when its turn comes.
unfoldable pub deliver_one : Host → String → OacpMessage → String → Bus → DeliveryReport × Bus
unfolding report_of unregistered_report
deliver_one host delivered_at m uri b = elim (Map.get b.agents uri) [
  | none ↦ (unregistered_report uri, b)
  | some r ↦
      let context : DeliveryContext = record {
        agent_uri = uri;
        trace_id = trace_id m;
        delivered_at = delivered_at;
      } in
      let (thrown_error, after) = run_handler host r.handler m context (post b r.mailbox m) in
      (report_of uri thrown_error, after)
]

unfoldable pub deliver : Host → String → OacpMessage → List String → Bus → List DeliveryReport × Bus
deliver host delivered_at m [] b = ([], b)
deliver host delivered_at m (uri ∷ uris) b =
    let (report, next) = deliver_one host delivered_at m uri b in
    let (reports, last) = deliver host delivered_at m uris next in (report ∷ reports, last)

-- The failure of every one of at least one delivery fails the sending.
unfoldable pub all_failed : List DeliveryReport → Bool
all_failed [] = false
all_failed (r ∷ rs) = all (λ d. not d.success) (r ∷ rs)

abbrev pub closed_error : OacpError
closed_error = routing_error bus_closed "Message bus is closed" []

unfoldable pub outcome_of : OacpMessage → List String → List DeliveryReport → SendOutcome
unfolding all_failed
outcome_of m recipients deliveries =
    if all_failed deliveries
    then failed (routing_error delivery_failed "Message delivery failed for all recipients" [])
    else sent m recipients deliveries

abbrev pub router_state : Bus → RouterState
router_state b = record {
  registered_agents = Map.keys b.agents;
  capability_index = b.capability_index;
}

abbrev pub router_options : Bus → RouterOptions
router_options b = record {
  capability_routing_mode = some b.capability_routing_mode;
  registry_agent_uri = some b.registry_agent_uri;
}

unfoldable pub record_trace : Bus → OacpMessage → Bus
record_trace b m =
    if b.record_traces then record b { trace_store = record_message b.trace_store m } else b

-- From the routing on.
unfoldable pub route_and_deliver : Host → String → OacpMessage → Bus → SendOutcome × Bus
route_and_deliver host delivered_at m b =
    elim (resolve_route host.collation m (router_state b) b.trace_store (router_options b)) [
      | err e ↦ (failed e, b)
      | ok recipients ↦
          let (deliveries, after) = deliver host delivered_at m recipients b in
          (outcome_of m recipients deliveries, after)
    ]

-- `validateOnSend` switches the validation off.
unfoldable pub validation : Host → Bool → OacpMessage → Option OacpError
validation host on m = if on then host.validate m else none

unfoldable pub send : Host → String → OacpMessage → Bus → SendOutcome × Bus
send host delivered_at m b =
    if b.is_open
    then elim (validation host b.validate_on_send m) [
      | some e ↦ (failed e, b)
      | none ↦ route_and_deliver host delivered_at m (record_trace b m)
    ]
    else (failed closed_error, b)

-- `sendRaw` takes any data; what its validation yields is validated once more by `send`.
unfoldable pub send_raw : Host → String → Json → Bus → SendOutcome × Bus
send_raw host delivered_at payload b =
    if b.is_open
    then elim (host.parse payload) [ err e ↦ (failed e, b) | ok m ↦ send host delivered_at m b ]
    else (failed closed_error, b)
