-- ===== src/Routing/Bus/Waiting.antt =====
-- `waitForMessage` and the timeout of its promise.
use oacp.Prelude.{
  ℕ, ◌+◌, String, Option, none, some, List, [], ◌∷◌, ◌++◌, filter, not, nat_eq, get_elem?, set,
  if◌then◌else◌,
}
use oacp.Js.Map
use oacp.Protocol.Json.{template}
use oacp.Protocol.Errors.{routing_error, Result, ok, err}
use oacp.Protocol.Errors.Codes.{agent_not_registered}
use oacp.Protocol.Messages.{OacpMessage}
use oacp.Routing.Types.{AgentMailbox, AgentRegistration}
use oacp.Routing.Bus.Defs.{Bus}
use oacp.Routing.Bus.Delivery.{clear_timer}

-- A queued message at once, or the number of the promise that waits for one.
pub data Waiting : Type 0 where
  received : OacpMessage → Waiting
  pending : ℕ → Waiting

unfoldable pub take_or_wait : Bus → ℕ → AgentMailbox → List OacpMessage → Waiting × Bus
take_or_wait b i box (m ∷ queue) =
    (received m, record b { mailboxes = set b.mailboxes i (record box { queue = queue }) })
take_or_wait b i box [] = (
  pending b.next_waiter,
  record b {
    mailboxes = set b.mailboxes i (record box { waiters = box.waiters ++ b.next_waiter ∷ [] });
    next_waiter = b.next_waiter + 1;
    timers = (b.next_waiter, i) ∷ b.timers;
  },
)

unknown_agent : String → String → Result (Waiting × Bus)
unknown_agent uri rest =
    err (routing_error agent_not_registered (template ("Agent \"" ∷ uri ∷ rest ∷ [])) [])

-- The mailbox of a registration; the error where the agent has none.
unfoldable pub mailbox_of : Bus → String → AgentRegistration → Option ℕ → Result (Waiting × Bus)
unfolding unknown_agent
mailbox_of b uri r none = unknown_agent uri "\" was not registered with useMailbox: true"
mailbox_of b uri r (some i) = elim (get_elem? b.mailboxes i) [
  | none ↦ unknown_agent uri "\" was not registered with useMailbox: true"
  | some box ↦ ok (take_or_wait b i box box.queue)
]

unfoldable pub wait_for_message : Bus → String → Result (Waiting × Bus)
unfolding unknown_agent
wait_for_message b uri = elim (Map.get b.agents uri) [
  | none ↦ unknown_agent uri "\" is not registered"
  | some r ↦ mailbox_of b uri r r.mailbox
]

unfoldable pub remove_waiter : ℕ → AgentMailbox → AgentMailbox
remove_waiter w box = record box { waiters = filter (λ v. not (nat_eq v w)) box.waiters }

-- The mailbox that the timer of a waiter holds.
unfoldable pub timer_of : ℕ → List (ℕ × ℕ) → Option ℕ
timer_of w [] = none
timer_of w ((v, box) ∷ ts) = if nat_eq v w then some box else timer_of w ts

-- The callback of the timer of the waiter `w`, if it is still set.
unfoldable pub expire : ℕ → Bus → Bus
unfolding remove_waiter
expire w b = elim (timer_of w b.timers) [
  | none ↦ b
  | some i ↦ elim (get_elem? b.mailboxes i) [
    | none ↦ b
    | some box ↦ record b {
      mailboxes = set b.mailboxes i (remove_waiter w box);
      timers = clear_timer w b.timers;
      settled = b.settled ++ (w, none) ∷ [];
    }
  ]
]
