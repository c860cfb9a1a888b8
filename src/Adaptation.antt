-- ===== src/Adaptation.antt =====
-- src/adaptation: what a learner may emit, the guards on it, the learner's modes and its rollback.
pub mod ActionSpace
pub mod EnvelopeGuard
pub mod Policy
pub mod Controller
pub mod Rollback
