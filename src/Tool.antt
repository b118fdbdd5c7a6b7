-- ===== src/Tool.antt =====
-- internal/tool: the registry of tools, the invoker between the tools and whoever calls them, and
-- the arguments that a tool takes.
pub mod Registry
pub mod Invoker
pub mod Guarded
pub mod Schedule
mod Examples
