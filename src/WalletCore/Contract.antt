-- ===== src/WalletCore/Contract.antt =====
-- The account-contract seam (crates/wallet-core/src/account_contract.rs). The krusty library, which
-- has the account class, the keys and the hashes, is the record `Krusty`; `none` is an error of it.
use strkd.Prelude.{ℕ, String, Bool, Option, List, [], ◌∷◌}
use strkd.Prelude.Result.{Result, ok, ◌>>=◌, ok_or}
use strkd.Felt.{Felt}
use strkd.WalletCore.Domain.{CoreError, address}
use strkd.WalletCore.Tx.{ResourceBounds, ComputeHash}

-- `krusty_kms_common::ChainId`
pub data ChainId : Type 0 where
  mainnet : ChainId
  sepolia : ChainId

pub data AccountContract : Type 0 where
  open_zeppelin : AccountContract

-- `krusty_kms::account_class::SaltPolicy`
pub data SaltPolicy : Type 0 where
  zero_salt : SaltPolicy
  public_key_salt : SaltPolicy

pub record DeploymentData : Type 0 where
  pub address : Felt
  pub class_hash : Felt
  pub salt : Felt
  pub constructor_calldata : List Felt

-- `krusty_kms::StarkSignature`
pub record StarkSignature : Type 0 where
  pub public_key : Felt
  pub r : Felt
  pub s : Felt

-- `krusty_kms::account_class::OpenZeppelinAccount`
pub record OpenZeppelin : Type 0 where
  pub class_hash : Felt
  pub build_constructor_calldata : Felt → List Felt
  pub deployment_descriptor : Felt → SaltPolicy → Option DeploymentData

pub record Krusty : Type 0 where
  -- `OpenZeppelinAccount::latest`
  pub latest : ChainId → Option OpenZeppelin
  -- `ChainId::{as_felt, from_felt}`
  pub as_felt : ChainId → Felt
  pub from_felt : Felt → Option ChainId
  -- mnemonic, address index, account index, coin type, passphrase
  pub derive_private_key_with_coin_type : String → ℕ → ℕ → ℕ → Option String → Option Felt
  pub stark_public_key : Felt → Option Felt
  pub sign_stark_hash : Felt → Felt → Option StarkSignature
  pub compute_typed_data_message_hash : String → Felt → Option Felt
  pub derive_scoped_strk20_viewing_key : Felt → String → String → Option Felt
  pub compute_invoke_v3_hash_with_proof_facts : ComputeHash
  -- address, class hash, constructor calldata, salt, chain, nonce, tip, the three bounds, paymaster
  -- data, and whether the two data-availability modes are L1
  pub compute_deploy_account_v3_hash :
      Felt
      → Felt
      → List Felt
      → Felt
      → Felt
      → Felt
      → ℕ
      → ResourceBounds
      → ResourceBounds
      → ResourceBounds
      → List Felt
      → Bool
      → Bool
      → Felt
  -- sender, class hash, compiled class hash, chain, nonce, tip, the three bounds, paymaster data, the
  -- two modes, account deployment data
  pub compute_declare_v3_hash :
      Felt
      → Felt
      → Felt
      → Felt
      → Felt
      → ℕ
      → ResourceBounds
      → ResourceBounds
      → ResourceBounds
      → List Felt
      → Bool
      → Bool
      → List Felt
      → Felt

unfoldable pub salt_policy : AccountContract → SaltPolicy
salt_policy open_zeppelin = zero_salt

unfoldable pub serialize_signature : AccountContract → StarkSignature → List Felt
serialize_signature open_zeppelin sig = sig.r ∷ sig.s ∷ []

unfoldable pub as_str : AccountContract → String
as_str open_zeppelin = "openzeppelin"

module _ (k : Krusty) where
  unfoldable pub class_hash : AccountContract → ChainId → Result CoreError Felt
  class_hash open_zeppelin chain = do oz ← ok_or address (k.latest chain); ok oz.class_hash

  unfoldable pub constructor_calldata : AccountContract → Felt → Result CoreError (List Felt)
  constructor_calldata open_zeppelin public_key = do
    oz ← ok_or address (k.latest mainnet)
    ok (oz.build_constructor_calldata public_key)

  unfoldable pub deployment : AccountContract → Felt → ChainId → Result CoreError DeploymentData
  unfolding salt_policy
  deployment open_zeppelin public_key chain = do
    oz ← ok_or address (k.latest chain)
    ok_or address (oz.deployment_descriptor public_key (salt_policy open_zeppelin))
