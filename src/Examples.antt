-- ===== src/Examples.antt =====
-- Tests and concrete runs of the models.
pub mod Planning
pub mod Wallet
pub mod Requests
pub mod Hosts
pub mod Vaults
pub mod Proving
pub mod Pool
