-- ===== src/Knowledge.antt =====
-- internal/knowledge: versions, the ranges that scope a rule, and the pack as it applies to one
-- deployed version.
pub mod Version
pub mod Overlap
pub mod Order
pub mod Disjoint
pub mod Refs
pub mod Resolve
pub mod Placed
pub mod Follows
pub mod Accounted
pub mod Slots
mod Examples
mod ResolveExamples
