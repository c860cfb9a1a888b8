-- ===== src/Risk/Manager.antt =====
-- src/risk/manager.py: the risk manager, which approves, resizes, rejects or blocks a candidate.
-- The texts of `reasons` are values of `Reason`, with the numbers that they show.
pub mod Defs
pub mod Sizing
pub mod Decide
pub mod Refusal
pub mod Approval
pub mod Caps
pub mod Limits
