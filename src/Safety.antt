-- ===== src/Safety.antt =====
-- internal/safety/guard.go: the guard that authorises every effect of a tool.
pub mod Effects
pub mod Tables
pub mod Args
pub mod Guard
pub mod Authorize
pub mod ExecEndpoint
pub mod Permitted
pub mod Narrowing
pub mod Exec
pub mod Sequences
pub mod Ceilings
pub mod RepeatedFlag
mod Examples
