-- ===== src/Routing/Bus/Reports.antt =====
-- What the reports of a sending say.
use oacp.Prelude.{
  String, ◌≡◌, ◌≢◌, refl, sym, ap, ◌∙◌, true, false, not, none, List, [], ◌∷◌, map, arith, all, any,
  inl, inr,
}
use oacp.Protocol.Errors.{ok, Result-cases}
use oacp.Protocol.Messages.{OacpMessage}
use oacp.Routing.Router.{resolve_route}
use oacp.Routing.Router.Laws.{resolve_route-ne-nil}
use oacp.Routing.Types.{DeliveryReport, sent}
use oacp.Routing.Bus.Defs.{Bus}
use oacp.Routing.Bus.Delivery.{
  Host, deliver_one, deliver, all_failed, outcome_of, record_trace, route_and_deliver, router_state,
  router_options, validation, send,
}

agent_uri-deliver_one :
    (host : Host) (at : String) (m : OacpMessage) (uri : String) (b : Bus)
    → (deliver_one host at m uri b).0.agent_uri ≡ uri
unfolding deliver_one
agent_uri-deliver_one host at m uri b = ground arith

-- Whatever the handlers do, each recipient has one report, in the order of the recipients.
agent_uris-deliver :
    (host : Host) (at : String) (m : OacpMessage) (uris : List String) (b : Bus)
    → map (λ r. r.agent_uri) (deliver host at m uris b).0 ≡ uris
unfolding deliver
agent_uris-deliver host at m [] b = refl
agent_uris-deliver host at m (uri ∷ uris) b = ground (
  arith,
  agent_uri-deliver_one host at m uri b,
  agent_uris-deliver host at m uris (deliver_one host at m uri b).1,
)

some_succeeds :
    (ds : List DeliveryReport)
    → all (λ d. not d.success) ds ≡ false
    → any (λ d. d.success) ds ≡ true
some_succeeds [] h = cc
some_succeeds (d ∷ ds) h = ground (arith, some_succeeds ds)

all_failed-none :
    (ds : List DeliveryReport) → ds ≢ [] → all_failed ds ≡ false → any (λ d. d.success) ds ≡ true
unfolding all_failed
all_failed-none [] h k = absurd (h refl)
all_failed-none (d ∷ ds) h k = some_succeeds (d ∷ ds) k

outcome_of-sent :
    (m m' : OacpMessage) (rs rs' : List String) (ds ds' : List DeliveryReport)
    → outcome_of m rs ds ≡ sent m' rs' ds'
    → (m' ≡ m) × (rs ≡ rs') × (ds ≡ ds') × (all_failed ds ≡ false)
unfolding outcome_of
outcome_of-sent m m' rs rs' ds ds' h = ground arith

-- What a successful sending has done after validation.
abbrev pub IsSent :
    Host → String → OacpMessage → Bus → OacpMessage → List String → List DeliveryReport → Type 0
IsSent host at m b m' rs ds =
    (m' ≡ m)
    × (resolve_route host.collation m (router_state b) b.trace_store (router_options b) ≡ ok rs)
    × (map (λ d. d.agent_uri) ds ≡ rs)
    × (any (λ d. d.success) ds ≡ true)

reports-ne-nil :
    (rs : List String) (ds : List DeliveryReport)
    → map (λ d. d.agent_uri) ds ≡ rs
    → rs ≢ []
    → ds ≢ []
reports-ne-nil rs [] e h k = h (sym e)
reports-ne-nil rs (d ∷ ds) e h k = cc

route_and_deliver-sent :
    (host : Host) (at : String) (m m' : OacpMessage) (rs : List String) (ds : List DeliveryReport)
    (b : Bus)
    → (route_and_deliver host at m b).0 ≡ sent m' rs ds
    → IsSent host at m b m' rs ds
unfolding route_and_deliver
route_and_deliver-sent host at m m' rs ds b h =
    elim (Result-cases
      (resolve_route host.collation m (router_state b) b.trace_store (router_options b))) [
        | inr (e, refused) ↦ ground arith
        | inl (found, r) ↦
            let parts =
              outcome_of-sent m m' found rs (deliver host at m found b).0 ds
                (rw (r, route_and_deliver) at h) in
            let named = rw (parts.2, parts.1) at (agent_uris-deliver host at m found b) in
            let some_report =
              reports-ne-nil rs ds named (resolve_route-ne-nil _ m _ _ _ rs (r ∙ ap ok parts.1)) in
            (
              parts.0,
              r ∙ ap ok parts.1,
              named,
              all_failed-none ds some_report (rw parts.2 at parts.3),
            )
      ]

-- Whatever the handlers do, a sending is reported as successful only on an open bus, for the message
-- that was given, after it passed the validation that the bus asks for; the reports are one for each
-- recipient that the router found on the bus with the message recorded, in the router's order; and
-- at least one delivery succeeded.
pub send-sent :
    (host : Host) (at : String) (m m' : OacpMessage) (rs : List String) (ds : List DeliveryReport)
    (b : Bus)
    → (send host at m b).0 ≡ sent m' rs ds
    → (b.is_open ≡ true)
      × (validation host b.validate_on_send m ≡ none)
      × IsSent host at m (record_trace b m) m' rs ds
unfolding send
send-sent host at m m' rs ds b h =
    ground (arith, route_and_deliver-sent host at m m' rs ds (record_trace b m))
