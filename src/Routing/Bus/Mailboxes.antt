-- ===== src/Routing/Bus/Mailboxes.antt =====
-- A mailbox is a queue: what is posted is received in the same order.
use oacp.Prelude.{
  ℕ, zero, suc, String, ◌≡◌, refl, ap, some, List, [], ◌∷◌, ◌++◌, length, get_elem?, set,
  get_elem?-set-some,
}
use mathlib.Core.List.{append_assoc, append-nil}
use oacp.Js.Map
use oacp.Protocol.Errors.{Result, ok, err}
use oacp.Protocol.Messages.{OacpMessage}
use oacp.Routing.Types.{AgentRegistration}
use oacp.Routing.Bus.Defs.{Bus}
use oacp.Routing.Bus.Delivery.{post_to, post}
use oacp.Routing.Bus.Waiting.{
  Waiting, received, pending, take_or_wait, mailbox_of, wait_for_message,
}

pub post_all : Bus → ℕ → List OacpMessage → Bus
post_all b i [] = b
post_all b i (m ∷ ms) = post_all (post b (some i) m) i ms

-- The messages that calls of `waitForMessage` return at once, as many calls as there is fuel, up to the
-- first that has to wait or fails.
receipt : Result (Waiting × Bus) → (Bus → List OacpMessage) → List OacpMessage
receipt (ok (received m, next)) rest = m ∷ rest next
receipt (ok (pending w, next)) rest = []
receipt (err e) rest = []

pub receive_all : ℕ → String → Bus → List OacpMessage
receive_all zero uri b = []
receive_all (suc n) uri b = receipt (wait_for_message b uri) (receive_all n uri)

-- The agent's mailbox is `i`, it holds `queue`, and nobody waits.
pub record Holds (b : Bus) (uri : String) (i : ℕ) (queue : List OacpMessage) : Type 0 where
  pub registration : AgentRegistration
  pub registered : Map.get b.agents uri ≡ some registration
  pub owns : registration.mailbox ≡ some i
  pub stored : get_elem? b.mailboxes i ≡ some (record { queue = queue; waiters = [] })

post-Holds :
    (b : Bus) (uri : String) (i : ℕ) (queue : List OacpMessage) (m : OacpMessage)
    → Holds b uri i queue
    → Holds (post b (some i) m) uri i (queue ++ m ∷ [])
unfolding post post_to
post-Holds b uri i queue m h = record {
  registration = h.registration;
  registered = rw (h.stored, post) h.registered;
  owns = h.owns;
  stored = rw (h.stored, post) (get_elem?-set-some b.mailboxes i _ _ h.stored);
}

post_all-Holds :
    (b : Bus) (uri : String) (i : ℕ) (queue ms : List OacpMessage)
    → Holds b uri i queue
    → Holds (post_all b i ms) uri i (queue ++ ms)
unfolding post_all
post_all-Holds b uri i queue [] h = rw append-nil h
post_all-Holds b uri i queue (m ∷ ms) h =
    rw (← append_assoc queue (m ∷ []) ms)
      (post_all-Holds (post b (some i) m) uri i (queue ++ m ∷ []) ms (post-Holds b uri i queue m h))

taken : Bus → ℕ → List OacpMessage → Bus
taken b i queue = record b {
  mailboxes = set b.mailboxes i (record { queue = queue; waiters = [] });
}

wait-Holds :
    (b : Bus) (uri : String) (i : ℕ) (m : OacpMessage) (queue : List OacpMessage)
    → Holds b uri i (m ∷ queue)
    → wait_for_message b uri ≡ ok (received m, taken b i queue)
unfolding wait_for_message mailbox_of take_or_wait taken
wait-Holds b uri i m queue h =
    rw (h.registered, wait_for_message) (rw (h.owns, mailbox_of) (rw (h.stored, mailbox_of)))

taken-Holds :
    (b : Bus) (uri : String) (i : ℕ) (m : OacpMessage) (queue : List OacpMessage)
    → Holds b uri i (m ∷ queue)
    → Holds (taken b i queue) uri i queue
unfolding taken
taken-Holds b uri i m queue h = record {
  registration = h.registration;
  registered = h.registered;
  owns = h.owns;
  stored = get_elem?-set-some b.mailboxes i _ _ h.stored;
}

receive_all-Holds :
    (b : Bus) (uri : String) (i : ℕ) (queue : List OacpMessage)
    → Holds b uri i queue
    → receive_all (length queue) uri b ≡ queue
unfolding receive_all receipt
receive_all-Holds b uri i [] h = refl
receive_all-Holds b uri i (m ∷ queue) h =
    rw (wait-Holds b uri i m queue h, receipt)
      (ap (λ l. m ∷ l)
        (receive_all-Holds (taken b i queue) uri i queue (taken-Holds b uri i m queue h)))

-- Messages posted to the mailbox of an agent for which nobody waits are received, behind those that were
-- queued, in the order in which they were posted, each by one call of `waitForMessage` that need not wait.
pub receive_all-post_all :
    (b : Bus) (uri : String) (i : ℕ) (queue ms : List OacpMessage)
    → Holds b uri i queue
    → receive_all (length (queue ++ ms)) uri (post_all b i ms) ≡ queue ++ ms
receive_all-post_all b uri i queue ms h =
    receive_all-Holds (post_all b i ms) uri i (queue ++ ms) (post_all-Holds b uri i queue ms h)
