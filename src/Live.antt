-- ===== src/Live.antt =====
-- Parts of src/live.
pub mod Guard
pub mod DemoGuard
pub mod AccountLock
