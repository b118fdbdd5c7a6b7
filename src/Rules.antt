-- ===== src/Rules.antt =====
-- internal/rules: the engine that runs playbooks without a model.
pub mod Playbook
pub mod Output
pub mod Engine
pub mod Honesty
pub mod Steps
pub mod Support
pub mod Numbering
pub mod Selection
mod Examples
