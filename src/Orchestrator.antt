-- ===== src/Orchestrator.antt =====
-- internal/orchestrator: the topologies that drive the agents over the shared state of a run.
pub mod Agents
pub mod Blackboard
pub mod Eligible
pub mod Traced
pub mod Once
mod Examples
