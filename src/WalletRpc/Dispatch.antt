-- ===== src/WalletRpc/Dispatch.antt =====
-- Request dispatch (crates/wallet-rpc/src/dispatch.rs): parameters, what is resolved before a prompt,
-- the handlers and the table of methods.
pub mod Params
pub mod Resolve
pub mod Summary
pub mod Prepare
pub mod PrepareFunding
pub mod PrepareDeclare
pub mod Invoke
pub mod Deploy
pub mod Wallet
pub mod Proving
pub mod Query
pub mod Report
pub mod Pairing
pub mod Respond
pub mod Serve
pub mod Gate
pub mod Gated
pub mod Scope
pub mod Scoped
pub mod Signers
pub mod Stored
pub mod Answers
pub mod Declared
