-- ===== src/WalletRpc/Session/Signing.antt =====
-- What a session signs (crates/wallet-rpc/src/session.rs).
use strkd.Prelude.{String, none, List}
use strkd.Prelude.Result.{Result, ok, ◌>>=◌, ok_or}
use strkd.Felt.{Felt}
use strkd.WalletCore.Contract.{ChainId, DeploymentData, StarkSignature, serialize_signature}
use strkd.WalletCore.Accounts.{AccountRef}
use strkd.WalletCore.Keys.{deployment_data, sign_typed_data, sign_hash, strk20_viewing_key}
use strkd.WalletCore.Sign.{
  SignedInvoke, SignedDeployAccount, SignedDeclare, sign_invoke_v3, sign_deploy_account_v3,
  sign_declare_v3,
}
use strkd.WalletCore.Tx.{Call, InvokeV3Params}
use strkd.WalletRpc.Error.{WalletRpcError, unknown}
use strkd.WalletRpc.Session.{Host, WalletSession, core, require_unlocked}

module _ (h : Host) where
  -- `Felt::from_hex(&account.address)`
  abbrev pub stored_address : AccountRef → Result WalletRpcError Felt
  stored_address account = ok_or (unknown "bad stored address") (h.formats.from_hex account.address)

  unfoldable pub deployment_data_for :
      AccountRef → WalletSession → Result WalletRpcError DeploymentData
  deployment_data_for account s = do
    u ← require_unlocked s
    core h (
        deployment_data h.krusty u.mnemonic account.domain account.index none s.chain
          account.contract)

  unfoldable pub sign_typed_data_for :
      AccountRef → String → WalletSession → Result WalletRpcError StarkSignature
  sign_typed_data_for account typed_data_json s = do
    u ← require_unlocked s
    address ← stored_address account
    core h (
        sign_typed_data h.krusty u.mnemonic account.domain account.index none typed_data_json
          address)

  unfoldable pub strk20_viewing_key_for :
      AccountRef → ChainId → Felt → WalletSession → Result WalletRpcError Felt
  strk20_viewing_key_for account chain pool s = do
    u ← require_unlocked s
    core h (
        strk20_viewing_key h.krusty h.formats u.mnemonic account.domain account.index none
          (h.krusty.as_felt chain) pool)

  unfoldable pub sign_hash_for :
      AccountRef → Felt → WalletSession → Result WalletRpcError (List Felt)
  sign_hash_for account hash s = do
    u ← require_unlocked s
    sig ← core h (sign_hash h.krusty u.mnemonic account.domain account.index none hash)
    ok (serialize_signature account.contract sig)

  unfoldable pub sign_invoke_for :
      AccountRef
      → List Call
      → ChainId
      → InvokeV3Params
      → WalletSession
      → Result WalletRpcError SignedInvoke
  sign_invoke_for account calls chain params s = do
    u ← require_unlocked s
    sender ← stored_address account
    core h (
        sign_invoke_v3 h.krusty u.mnemonic account.domain account.index none sender calls chain
          params account.contract)

  unfoldable pub sign_declare_for :
      AccountRef
      → Felt
      → Felt
      → ChainId
      → InvokeV3Params
      → WalletSession
      → Result WalletRpcError SignedDeclare
  sign_declare_for account class_hash compiled_class_hash chain params s = do
    u ← require_unlocked s
    sender ← stored_address account
    core h (
        sign_declare_v3 h.krusty u.mnemonic account.domain account.index none sender class_hash
          compiled_class_hash chain params account.contract)

  unfoldable pub sign_deploy_account_for :
      AccountRef
      → ChainId
      → InvokeV3Params
      → WalletSession
      → Result WalletRpcError SignedDeployAccount
  sign_deploy_account_for account chain params s = do
    u ← require_unlocked s
    core h (
        sign_deploy_account_v3 h.krusty u.mnemonic account.domain account.index none chain params
          account.contract)
