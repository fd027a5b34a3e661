-- ===== src/Routing/Router/Responses.antt =====
-- Where core/src/routing/router.ts sends a response, on a bus that has recorded any messages.
use oacp.Prelude.{
  ℕ, String, ◌≡◌, ◌↔◌, refl, sym, ap, ◌∙◌, Option, none, some, List, [], ◌∷◌, arith, last?,
}
use oacp.Js.Collation.{Collation}
use oacp.Protocol.Errors.{ok}
use oacp.Protocol.Messages.{OacpMessage, task_response, TaskResponseMessage, sender}
use oacp.Routing.TraceStore.{init, get_message_by_id}
use oacp.Routing.TraceStore.Window.{record_all, with_id, get_message_by_id-record_all}
use oacp.Routing.Router.{RouterState, RouterOptions, resolve_route, resolve_task_response}

-- After any messages are recorded, the response itself among them, a response is routed exactly where one of them
-- has the id that it replies to, and then to one recipient, the sender of the last message recorded with that id.
pub resolve_route-record_all :
    (c : Collation) (n : ℕ) (ms : List OacpMessage) (m : TaskResponseMessage) (state : RouterState)
    (options : RouterOptions) (rs : List String)
    → (resolve_route c (task_response m) state (record_all (init n) ms) options ≡ ok rs) ↔ (
        (original : OacpMessage) × (last? (with_id m.in_reply_to ms) ≡ some original)
        × (rs ≡ sender original ∷ []))
unfolding resolve_route resolve_task_response
resolve_route-record_all c n ms m state options rs =
    go (last? (with_id m.in_reply_to ms)) (get_message_by_id-record_all n ms m.in_reply_to)
  where
    go :
        (o : Option OacpMessage)
        → get_message_by_id (record_all (init n) ms) m.in_reply_to ≡ o
        → (resolve_task_response m (record_all (init n) ms) ≡ ok rs)
          ↔ ((original : OacpMessage) × (o ≡ some original) × (rs ≡ sender original ∷ []))
    go none e = (
      λ h. absurd (ground (arith, rw (e, resolve_task_response) at h)),
      λ (other, same, lone). absurd (ground (arith, same)),
    )
    go (some original) e = (
      λ h. (original, refl, ground (arith, rw (e, resolve_task_response) at h)),
      λ (other, same, lone).
          let found : other ≡ original = ground (arith, same) in
          rw (e, resolve_task_response) (sym (ap ok (lone ∙ ap (λ x. sender x ∷ []) found))),
    )
