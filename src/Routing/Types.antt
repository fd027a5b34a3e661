-- ===== src/Routing/Types.antt =====
-- core/src/routing/types.ts: registrations, mailboxes and the outcomes of sending.
use oacp.Prelude.{ℕ, String, Bool, Option, List}
use oacp.Js.Set.{Set}
use oacp.Protocol.Errors.{OacpError}
use oacp.Protocol.Messages.{OacpMessage}

-- A mailbox is shared by reference, so it lives in the heap of the bus. A waiter is the promise of one
-- call of `waitForMessage`, by its number.
pub record AgentMailbox : Type 0 where
  pub queue : List OacpMessage
  pub waiters : List ℕ

-- `handler` is the number of a handler of the host, and `mailbox` a reference into the heap.
pub record AgentRegistration : Type 0 where
  pub agent_uri : String
  pub handler : Option ℕ
  pub capabilities : Set
  pub mailbox : Option ℕ

-- The bus itself, which the source passes along, is the state that the handler is run on.
pub record DeliveryContext : Type 0 where
  pub agent_uri : String
  pub trace_id : String
  pub delivered_at : String

pub data DeliveryError : Type 0 where
  unroutable : OacpError → DeliveryError
  thrown : String → DeliveryError

pub record DeliveryReport : Type 0 where
  pub agent_uri : String
  pub success : Bool
  pub error : Option DeliveryError

pub data SendOutcome : Type 0 where
  sent :
      (message : OacpMessage) (recipients : List String) (deliveries : List DeliveryReport)
      → SendOutcome
  failed : OacpError → SendOutcome
