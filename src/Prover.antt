-- ===== src/Prover.antt =====
-- The proving companion (crates/prover).
pub mod Jobs
pub mod Enqueue
pub mod Outcomes
pub mod Feed
