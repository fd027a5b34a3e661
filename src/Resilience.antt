-- ===== src/Resilience.antt =====
-- core/src/resilience: task delivery with failover to other agents and retries.
pub mod Policy
pub mod Send
