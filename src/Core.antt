-- ===== src/Core.antt =====
-- internal/core: the diagnostic domain model, and the scanner of playbook expressions.
pub mod Text
pub mod Model
pub mod Identifiers
pub mod Scanner
pub mod Selectors
pub mod Cost
pub mod CostLaws
pub mod Report
pub mod ReportOrder
pub mod ReportValid
mod Examples
mod ReportExamples
