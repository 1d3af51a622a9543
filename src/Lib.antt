-- ===== src/Lib.antt =====
-- strkd: a Starknet wallet companion with a client of the STRK20 privacy pool.
--
-- The program is a tree of Rust crates. crates/strk20 plans and encodes batches for the pool, and
-- reads a user's private notes and channels from it. crates/wallet-core holds accounts, keys and
-- transactions. crates/wallet-rpc is the loopback service that pairs clients, asks for approval and
-- calls both. A request of a paired client becomes an intent; discovery reads the state; `plan`
-- turns both into an ordered batch of actions; the invocation encodes the batch for a prover and
-- for the account's signature; `apply_actions_call` turns the proof into the transaction.
--
-- Which file models which part:
--   Prelude, Prelude/*: numbers, texts, lists, `Result`, `i128` (Int), `BTreeMap` (Map).
--   Felt: field elements, and the cryptography that the crates call, as the record `External`.
--   WalletCore/Tx: crates/wallet-core/src/tx.rs; Tx/Decode reads the multicall back.
--   WalletCore/Domain, WalletCore/Accounts: domain.rs and accounts.rs of the same crate.
--   Strk20/Error, Actions, Hashes, Crypto, Discovery: lib.rs, actions.rs, hashes.rs, crypto.rs and
--     discovery.rs of crates/strk20/src, a function for each function, under the same name.
--   Strk20/Intent, Balance, Random, Build, Planner: crates/strk20/src/planner.rs. `plan` is cut where
--     its variables change: `settle` (guards, balances, notes to spend), `begin` (registration),
--     `place_notes` (channels, subchannels, notes), `withdraw_actions`, `assemble`. Build is the
--     record of the variables that its loop mutates.
--   Strk20/Invocation, Strk20/Apply: invocation.rs and apply.rs of the same crate.
--   WalletCore/Contract, Keys, Sign, Vault: account_contract.rs, keys.rs, tx.rs (signed transactions)
--     and vault.rs of crates/wallet-core/src.
--   WalletRpc/Auth, Backoff, Log, Error, Approval: auth.rs, backoff.rs, log.rs, error.rs (with
--     jsonrpc.rs) and approval.rs of crates/wallet-rpc/src.
--   WalletRpc/Session: session.rs and store.rs; Session/Keyring derives and registers accounts,
--     Session/Signing signs.
--   WalletRpc/Node: node.rs, the trait of a node, the transactions in RPC form, the estimates.
--   WalletRpc/State: `ServerState` of dispatch.rs with its methods. WalletRpc/Handler: handlers as
--     actions on the state, and `gated_approval`; Handler/Signing is what they sign.
--   WalletRpc/Dispatch/*: dispatch.rs. Params and Resolve read what a request names; Prepare,
--     PrepareFunding and PrepareDeclare are the parts of the handlers before their prompt, Summary
--     the texts of the prompts; Invoke, Deploy, Wallet, Proving, Query, Report and Pairing are the
--     handlers; Respond is the table of methods behind a token, Serve is `handle` and `dispatch`.
--   WalletRpc/Server: server.rs, the guard on the transport and the RPC handler.
--   Prelude/Json, Prelude/Formats: `serde_json::Value`, and the printing and parsing of libraries.
--   Prover/Jobs, Prover/Enqueue: jobs.rs and lib.rs of crates/prover/src; Prover/Outcomes and
--     Prover/Feed are about what a poller sees.
--   The other files below these are proofs, named for what they are about: Dispatch/Gate and Gated
--     for approval, Scope, Scoped and Signers for accounts, Stored, Answers and Declared for single
--     handlers. Handler/Approvals says what counts as an approval; Handler/Rules, Signs, Starts and
--     Steady are the rules by which actions are built.
--   Examples/*: concrete runs, on a small host.
--
-- Conventions. A Felt is its canonical number. Unsigned integers are numbers with their wrap-around
-- written out; `i128` is an integer that wraps in Prelude/Int. A `?` is the bind of `Result`; a
-- generator of random numbers is a state that each draw passes on. The scans of discovery count
-- down the indices that are left below 2^32, where the code refuses to go on; `note_salt` takes a
-- bound on its draws, since nothing forces a generator ever to give a salt above 1.
--
-- A handler is a function of the environment and the world to a result and a new world: the state of
-- the service, and the events of the request (prompts, signatures, broadcasts), which are recorded
-- only to be observed. Requests interleave where the code awaits the user or a node without holding
-- the session; of these, the open prompt is modelled: there the world passes through `meanwhile`, an
-- arbitrary function of the environment. The approver, the node, the clock and the random source are
-- of the environment too; `none` as a response is a panic of the task. No fuel is needed in dispatch:
-- its loops run over given lists.
--
-- Parameters, for what is not the repository's code: `External` (Poseidon, the curve, keccak), `Krusty`
-- (keys, signatures, transaction hashes), `VaultCrypto` (Argon2id, AES-256-GCM), `Formats` (texts of
-- numbers and hex), `Host` with all of these. `SierraClass` and `Strk20` are interfaces that stand
-- for crates/wallet-core/src/class_hash.rs and crates/wallet-rpc/src/strk20.
--
-- Not modelled: HTTP (routing, binding, the client of a node), SQLite, processes and the user
-- interface (crates/wallet-cli, desktop); the usage document; the parsing and hashing of contract
-- classes; the flows of the privacy pool behind dispatch; the proving backends and their settings;
-- the printed derivation path; what other requests do while a handler awaits a node; the erasing of
-- secrets from memory.
pub mod Prelude
pub mod Felt
pub mod WalletCore
pub mod Strk20
pub mod WalletRpc
pub mod Prover
pub mod Examples
