-- ===== src/Routing/Bus.antt =====
-- core/src/routing/message-bus.ts: the state of `InMemoryMessageBus` and its registration. The code
-- runs on one thread; what other tasks do while a handler is awaited is part of that handler's effect.
pub mod Defs
pub mod Delivery
pub mod Waiting
pub mod Registration
pub mod Reports
pub mod Reachable
pub mod Calls
pub mod Soundness
pub mod Mailboxes
