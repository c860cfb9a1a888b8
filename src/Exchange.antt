-- ===== src/Exchange.antt =====
-- src/exchange: the contract metadata and its review.
pub mod Metadata
pub mod Tradable
