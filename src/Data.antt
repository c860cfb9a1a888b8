-- ===== src/Data.antt =====
-- src/data: the grid of timestamps and the gaps in a stored series.
pub mod Gaps
