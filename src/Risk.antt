-- ===== src/Risk.antt =====
-- src/risk: the envelope, the circuit breakers, the portfolio, the risk manager and its state.
pub mod Envelope
pub mod Config
pub mod Breakers
pub mod Portfolio
pub mod Manager
pub mod State
