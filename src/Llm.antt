-- ===== src/Llm.antt =====
-- internal/llm: what a run spends on models.
pub mod Ledger
pub mod Balance
pub mod Router
pub mod Routed
mod Examples
