-- ===== src/Safety/Tables.antt =====
-- internal/safety/guard.go: the tables of the guard.
pub mod Patterns
pub mod Commands
pub mod Paths
