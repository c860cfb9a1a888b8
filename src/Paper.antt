-- ===== src/Paper.antt =====
-- src/paper/: the paper trading engine, which drives the modelled risk manager and execution engine.
pub mod Session
pub mod Engine
pub mod Funding
pub mod Exits
pub mod Booking
pub mod Input
pub mod Entry
pub mod Process
pub mod Lockstep
pub mod Watch
