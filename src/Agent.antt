-- ===== src/Agent.antt =====
-- internal/agent: the shared working memory of a run.
pub mod State
pub mod Ops
pub mod Invariant
pub mod Budget
pub mod Citations
pub mod HypothesisIds
pub mod Hypotheses
pub mod Interleaved
pub mod Interleavings
pub mod Loop
pub mod LoopOps
mod Examples
mod InterleavedExamples
mod LoopExamples
