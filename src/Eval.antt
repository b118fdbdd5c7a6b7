-- ===== src/Eval.antt =====
-- internal/eval: an outcome scored, totals by topology, and a run compared against a baseline.
pub mod Score
pub mod Compare
pub mod Verdicts
pub mod Regressions
mod Examples
