-- ===== src/Workflow.antt =====
-- core/src/workflow: plans of subtasks, their validation and their execution.
pub mod Plan
pub mod Batches
pub mod Validation
pub mod Dag
pub mod Steps
pub mod Decompose
pub mod Definition
pub mod Engine
