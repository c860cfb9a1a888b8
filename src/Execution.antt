-- ===== src/Execution.antt =====
-- src/execution: the order builder, ownership, the venue, the engine and reconciliation.
pub mod Config
pub mod Ownership
pub mod Order
pub mod Venue
pub mod Engine
pub mod Reconciliation
