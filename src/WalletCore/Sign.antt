-- ===== src/WalletCore/Sign.antt =====
-- Signed transactions (crates/wallet-core/src/tx.rs).
use strkd.Prelude.{ℕ, String, true, Option, none, some, List}
use strkd.Prelude.Text.{◌<>◌}
use strkd.Prelude.Formats.{Formats, strip_prefix}
use strkd.Prelude.Result.{Result, ok, ◌>>=◌, ok_or}
use strkd.Felt.{Felt, External}
use strkd.WalletCore.Domain.{Domain, CoreError, address}
use strkd.WalletCore.Contract.{Krusty, ChainId, AccountContract, serialize_signature}
use strkd.WalletCore.Keys.{deployment_data, sign_hash}
use strkd.WalletCore.Tx.{Call, InvokeV3Params, encode_calls, invoke_v3_hash, get_selector_from_name}

pub record SignedInvoke : Type 0 where
  pub transaction_hash : Felt
  pub calldata : List Felt
  pub signature : List Felt
  pub r : Felt
  pub s : Felt

pub record SignedDeployAccount : Type 0 where
  pub transaction_hash : Felt
  pub address : Felt
  pub class_hash : Felt
  pub salt : Felt
  pub constructor_calldata : List Felt
  pub signature : List Felt
  pub r : Felt
  pub s : Felt

pub record SignedDeclare : Type 0 where
  pub transaction_hash : Felt
  pub signature : List Felt
  pub r : Felt
  pub s : Felt

-- `strip_prefix("0x").or_else(|| strip_prefix("0X"))`
abbrev pub strip_hex : String → Option String
strip_hex s = elim (strip_prefix "0x" s) [ none ↦ strip_prefix "0X" s | some hex ↦ some hex ]

unfoldable pub resolve_selector : External → Formats → String → Result CoreError Felt
resolve_selector x f s = elim (strip_hex s) [
  | some hex ↦ ok_or address (f.from_hex ("0x" <> hex))
  | none ↦ ok (get_selector_from_name x s)
]

module _ (k : Krusty) where
  unfoldable pub sign_invoke_v3 :
      String
      → Domain
      → ℕ
      → Option String
      → Felt
      → List Call
      → ChainId
      → InvokeV3Params
      → AccountContract
      → Result CoreError SignedInvoke
  sign_invoke_v3 mnemonic d index passphrase sender calls chain params contract = do
    let hash =
        invoke_v3_hash k.compute_invoke_v3_hash_with_proof_facts sender calls (k.as_felt chain)
          params
    sig ← sign_hash k mnemonic d index passphrase hash
    ok (record {
      transaction_hash = hash;
      calldata = encode_calls calls;
      signature = serialize_signature contract sig;
      r = sig.r;
      s = sig.s;
    })

  unfoldable pub sign_deploy_account_v3 :
      String
      → Domain
      → ℕ
      → Option String
      → ChainId
      → InvokeV3Params
      → AccountContract
      → Result CoreError SignedDeployAccount
  sign_deploy_account_v3 mnemonic d index passphrase chain params contract = do
    deployed ← deployment_data k mnemonic d index passphrase chain contract
    let hash =
        k.compute_deploy_account_v3_hash deployed.address deployed.class_hash
          deployed.constructor_calldata deployed.salt (k.as_felt chain) params.nonce params.tip
          params.l1_gas params.l2_gas params.l1_data_gas params.paymaster_data true true
    sig ← sign_hash k mnemonic d index passphrase hash
    ok (record {
      transaction_hash = hash;
      address = deployed.address;
      class_hash = deployed.class_hash;
      salt = deployed.salt;
      constructor_calldata = deployed.constructor_calldata;
      signature = serialize_signature contract sig;
      r = sig.r;
      s = sig.s;
    })

  unfoldable pub declare_v3_hash : Felt → Felt → Felt → ChainId → InvokeV3Params → Felt
  declare_v3_hash sender class_hash compiled_class_hash chain params =
      k.compute_declare_v3_hash sender class_hash compiled_class_hash (k.as_felt chain) params.nonce
        params.tip params.l1_gas params.l2_gas params.l1_data_gas params.paymaster_data true true
        params.account_deployment_data

  unfoldable pub sign_declare_v3 :
      String
      → Domain
      → ℕ
      → Option String
      → Felt
      → Felt
      → Felt
      → ChainId
      → InvokeV3Params
      → AccountContract
      → Result CoreError SignedDeclare
  sign_declare_v3 mnemonic d index passphrase sender class_hash compiled_class_hash chain params
        contract =
      do
        let hash = declare_v3_hash sender class_hash compiled_class_hash chain params
        sig ← sign_hash k mnemonic d index passphrase hash
        ok (record {
          transaction_hash = hash;
          signature = serialize_signature contract sig;
          r = sig.r;
          s = sig.s;
        })
