-- ===== src/Tests.antt =====
-- The theorems at concrete inputs, over exact multiples of 10^-9.
mod Samples
mod Risk
mod Orders
mod Books
mod Halts
mod Learner
mod Gating
mod Queueing
mod Coverage
mod Sessions
mod Ranked
mod Paper
mod Entries
mod Losing
