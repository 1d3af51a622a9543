-- ===== src/WalletCore/Keys/InRange.antt =====
-- The account numbers that keys are derived for.
use strkd.Prelude.{ℕ, String, ◌≡◌, ◌<◌, Option, arith}
use strkd.Prelude.Result.{ok, >>=-eq-ok}
use strkd.Felt.{Felt}
use strkd.WalletCore.Domain.{Domain, check_index, index_limit}
use strkd.WalletCore.Contract.{Krusty, ChainId, AccountContract}
use strkd.WalletCore.Keys.{private_key, public_key, deployment_data, account_address}

check_index-lt : (d : Domain) (n : ℕ) → check_index d n ≡ ok tt → n < index_limit d
unfolding check_index
check_index-lt d n h = ground arith

module _ (k : Krusty) (mnemonic : String) (d : Domain) (n : ℕ) (passphrase : Option String) where
  pub private_key-lt :
      {sk : Felt} → private_key k mnemonic d n passphrase ≡ ok sk → n < index_limit d
  unfolding private_key
  private_key-lt h = let (u, e, _) = >>=-eq-ok (check_index d n) _ h in check_index-lt d n e

  pub account_address-lt :
      (chain : ChainId) (contract : AccountContract) {a : Felt}
      → account_address k mnemonic d n passphrase chain contract ≡ ok a
      → n < index_limit d
  unfolding account_address deployment_data public_key
  account_address-lt chain contract h =
      let (_, e, _) = >>=-eq-ok (deployment_data k mnemonic d n passphrase chain contract) _ h in
      let (_, f, _) = >>=-eq-ok (public_key k mnemonic d n passphrase) _ e in
      let (_, g, _) = >>=-eq-ok (private_key k mnemonic d n passphrase) _ f in private_key-lt g
