-- ===== src/Ranking.antt =====
-- src/ranking: the candidate that the decision pipeline carries, its setup-quality score, and the
-- ranking of a cycle's candidates.
pub mod Candidate
pub mod Setup
pub mod Engine
