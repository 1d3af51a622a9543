-- ===== src/WalletRpc.antt =====
-- The wallet's loopback service (crates/wallet-rpc).
pub mod Auth
pub mod Backoff
pub mod Log
pub mod Error
pub mod Approval
pub mod Session
pub mod Node
pub mod State
pub mod Handler
pub mod Dispatch
pub mod Server
