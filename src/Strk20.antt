-- ===== src/Strk20.antt =====
-- The privacy-pool client (crates/strk20).
pub mod Error
pub mod Actions
pub mod Hashes
pub mod Crypto
pub mod Discovery
pub mod Intent
pub mod Balance
pub mod Random
pub mod Build
pub mod Planner
pub mod Invocation
pub mod Apply
