-- ===== src/WalletCore.antt =====
-- Accounts, derivation branches and transactions (crates/wallet-core).
pub mod Tx
pub mod Domain
pub mod Contract
pub mod Accounts
pub mod Keys
pub mod Sign
pub mod Vault
