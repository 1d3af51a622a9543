-- ===== src/WalletCore/Keys.antt =====
-- Keys and addresses of an account (crates/wallet-core/src/keys.rs), over the krusty library.
pub mod InRange
use strkd.Prelude.{ℕ, String, Option}
use strkd.Prelude.Text.{◌<>◌}
use strkd.Prelude.Formats.{Formats}
use strkd.Prelude.Result.{Result, ok, ◌>>=◌, ◌>>◌, ok_or}
use strkd.Felt.{Felt}
use strkd.WalletCore.Domain.{Domain, CoreError, check_index, path_indices, derivation, signing}
use strkd.WalletCore.Contract.{
  Krusty, ChainId, AccountContract, open_zeppelin, DeploymentData, StarkSignature, deployment,
}

-- The BIP-44 coin type.
abbrev pub starknet_coin_type : ℕ
starknet_coin_type = 9004

module _ (k : Krusty) where
  unfoldable pub private_key : String → Domain → ℕ → Option String → Result CoreError Felt
  private_key mnemonic d index passphrase = do
    check_index d index
    let (account_index, address_index) = path_indices d index
    ok_or derivation (
        k.derive_private_key_with_coin_type mnemonic address_index account_index starknet_coin_type
          passphrase)

  unfoldable pub strk20_viewing_key :
      Formats → String → Domain → ℕ → Option String → Felt → Felt → Result CoreError Felt
  strk20_viewing_key f mnemonic d index passphrase chain_id pool = do
    sk ← private_key mnemonic d index passphrase
    ok_or derivation (
        k.derive_scoped_strk20_viewing_key sk ("0x" <> f.lower_hex chain_id)
          ("0x" <> f.lower_hex pool))

  unfoldable pub public_key : String → Domain → ℕ → Option String → Result CoreError Felt
  public_key mnemonic d index passphrase = do
    sk ← private_key mnemonic d index passphrase
    ok_or derivation (k.stark_public_key sk)

  unfoldable pub deployment_data :
      String
      → Domain
      → ℕ
      → Option String
      → ChainId
      → AccountContract
      → Result CoreError DeploymentData
  deployment_data mnemonic d index passphrase chain contract = do
    pubkey ← public_key mnemonic d index passphrase
    deployment k contract pubkey chain

  unfoldable pub account_address :
      String → Domain → ℕ → Option String → ChainId → AccountContract → Result CoreError Felt
  account_address mnemonic d index passphrase chain contract = do
    deployed ← deployment_data mnemonic d index passphrase chain contract
    ok deployed.address

  unfoldable pub oz_address : String → Domain → ℕ → Option String → ChainId → Result CoreError Felt
  oz_address mnemonic d index passphrase chain =
      account_address mnemonic d index passphrase chain open_zeppelin

  unfoldable pub typed_data_message_hash : String → Felt → Result CoreError Felt
  typed_data_message_hash typed_data_json account_address =
      ok_or signing (k.compute_typed_data_message_hash typed_data_json account_address)

  unfoldable pub sign_hash :
      String → Domain → ℕ → Option String → Felt → Result CoreError StarkSignature
  sign_hash mnemonic d index passphrase hash = do
    sk ← private_key mnemonic d index passphrase
    ok_or signing (k.sign_stark_hash sk hash)

  unfoldable pub sign_typed_data :
      String → Domain → ℕ → Option String → String → Felt → Result CoreError StarkSignature
  sign_typed_data mnemonic d index passphrase typed_data_json account_address = do
    hash ← typed_data_message_hash typed_data_json account_address
    sign_hash mnemonic d index passphrase hash
