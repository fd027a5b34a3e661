-- ===== src/Observability.antt =====
-- core/src/observability: what is shown of the traces.
pub mod GraphMessages
