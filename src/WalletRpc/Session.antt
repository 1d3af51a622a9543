-- ===== src/WalletRpc/Session.antt =====
-- The wallet session and the vault file (crates/wallet-rpc/src/session.rs and store.rs). What the
-- libraries below it do is the record `Host`. A file is the vault that `from_json` reads from it;
-- a write is atomic, and an argument says whether it succeeds.
pub mod Keyring
pub mod Signing
pub mod Reseal
pub mod Created
use strkd.Prelude.{ℕ, String, Bool, true, false, Option, none, some, List, if◌then◌else◌}
use strkd.Prelude.Formats.{Formats}
use strkd.Prelude.Result.{Result, ok, err, map_err, ◌>>=◌, ok_or}
use strkd.Felt.{External}
use strkd.WalletCore.Domain.{CoreError, serialization}
use strkd.WalletCore.Contract.{Krusty, ChainId}
use strkd.WalletCore.Accounts.{Registry, remove_by_address}
use strkd.WalletCore.Vault.{EncryptedVault, VaultCrypto, seal, unseal}
use strkd.WalletRpc.Error.{WalletRpcError, invalid_request, unknown, locked, from_core}

pub record VaultContents : Type 0 where
  pub mnemonic : String
  pub registry : Registry

pub record Host : Type 0 where
  pub external : External
  pub krusty : Krusty
  pub formats : Formats
  pub vault : VaultCrypto
  -- `serde_json::to_vec` and `from_slice` of the contents
  pub to_vec : VaultContents → Option (List ℕ)
  pub from_slice : List ℕ → Option VaultContents

pub record Unlocked : Type 0 where
  pub mnemonic : String
  pub vault_passphrase : String
  pub registry : Registry

pub record WalletSession : Type 0 where
  pub chain : ChainId
  pub unlocked : Option Unlocked

-- The two draws of a `seal`.
pub record Draws : Type 0 where
  pub salt : Option (List ℕ)
  pub nonce : Option (List ℕ)

unfoldable pub new_locked : ChainId → WalletSession
new_locked chain = record { chain = chain; unlocked = none }

unfoldable pub new_unlocked : ChainId → String → String → Registry → WalletSession
new_unlocked chain mnemonic vault_passphrase registry = record {
  chain = chain;
  unlocked =
      some
        (record { mnemonic = mnemonic; vault_passphrase = vault_passphrase; registry = registry });
}

unfoldable pub lock : WalletSession → WalletSession
lock s = record s { unlocked = none }

abbrev pub is_locked : WalletSession → Bool
is_locked s = elim s.unlocked [ none ↦ true | some _ ↦ false ]

unfoldable pub set_chain : ChainId → WalletSession → WalletSession
set_chain chain s = record s { chain = chain }

unfoldable pub require_unlocked : WalletSession → Result WalletRpcError Unlocked
require_unlocked s = ok_or locked s.unlocked

unfoldable pub registry : WalletSession → Result WalletRpcError Registry
registry s = elim s.unlocked [ none ↦ err locked | some u ↦ ok u.registry ]

abbrev pub with_registry : Registry → Unlocked → Unlocked
with_registry accounts u = record u { registry = accounts }

unfoldable pub rollback_account : String → WalletSession → WalletSession
rollback_account address s = elim s.unlocked [
  | none ↦ s
  | some u ↦ record s { unlocked = some (with_registry (remove_by_address address u.registry).0 u) }
]

-- `VaultStore::{load, save}`
unfoldable pub save : Bool → EncryptedVault → Option EncryptedVault → Option EncryptedVault × Bool
save written v file = if written then (some v, written) else (file, written)

module _ (h : Host) where
  abbrev pub core {ℓ} : {A : Type ℓ} → Result CoreError A → Result WalletRpcError A
  core m = map_err (from_core h.formats) m

  unfoldable pub contents_of : String → EncryptedVault → Result CoreError VaultContents
  contents_of passphrase v = do
    plaintext ← unseal h.vault passphrase v
    ok_or serialization (h.from_slice plaintext)

  unfoldable pub reveal_mnemonic : EncryptedVault → String → Result WalletRpcError String
  reveal_mnemonic v passphrase = do
    plaintext ←
        map_err (λ _. invalid_request "wrong passphrase (or the vault file is damaged)")
          (unseal h.vault passphrase v)
    contents ← ok_or (unknown "vault contents are unreadable") (h.from_slice plaintext)
    ok contents.mnemonic

  unfoldable pub reveal_for_session :
      WalletSession → EncryptedVault → String → Result WalletRpcError String
  reveal_for_session s v passphrase =
      if is_locked s then err locked else reveal_mnemonic v passphrase

  unfoldable pub unlock :
      EncryptedVault → String → WalletSession → Result CoreError (Unit {0}) × WalletSession
  unlock v passphrase s = elim (contents_of passphrase v) [
    | err e ↦ (err e, s)
    | ok contents ↦ (
      ok tt,
      record s {
        unlocked = some (record {
          mnemonic = contents.mnemonic;
          vault_passphrase = passphrase;
          registry = contents.registry;
        });
      },
    )
  ]

  unfoldable pub reseal : Draws → WalletSession → Result WalletRpcError EncryptedVault
  reseal draws s = do
    u ← require_unlocked s
    plaintext ←
        ok_or (unknown "serialize")
          (h.to_vec (record { mnemonic = u.mnemonic; registry = u.registry }))
    core (seal h.vault draws.salt draws.nonce u.vault_passphrase plaintext)
