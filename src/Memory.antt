-- ===== src/Memory.antt =====
-- core/src/memory: the memory of tasks, and the graph of their delegations.
pub mod Types
pub mod Pattern
pub mod Scope
pub mod Store
pub mod Recorder
pub mod Graph
pub mod GraphStore
pub mod GraphRecorder
