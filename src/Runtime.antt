-- ===== src/Runtime.antt =====
-- core/src/runtime: agents that send and handle tasks over the bus, and pipelines of tasks.
pub mod Pipeline
pub mod Lifecycle
pub mod MessageFactory
pub mod Agent
