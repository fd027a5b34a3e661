-- ===== src/Routing.antt =====
-- core/src/routing: the in-process message bus and its parts.
pub mod TraceStore
pub mod CapabilityIndex
pub mod Types
pub mod Router
pub mod Bus
pub mod Retry
