-- ===== src/Tests.antt =====
-- Examples at concrete inputs.
pub mod Data
pub mod Routing
pub mod Resilience
pub mod Workflow
pub mod Engine
pub mod Retry
pub mod Memory
pub mod Runtime
pub mod Decompose
pub mod Capabilities
pub mod Pipeline
