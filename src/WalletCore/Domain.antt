-- ===== src/WalletCore/Domain.antt =====
-- The two derivation branches (crates/wallet-core/src/domain.rs).
use strkd.Prelude.{String, ℕ, ◌≤◌, ◌≡◌, ◌↔◌, arith, ltb, if◌then◌else◌}
use strkd.Prelude.Result.{Result, ok, err}

pub data Domain : Type 0 where
  user : Domain
  agent : Domain

-- The errors of the crate (crates/wallet-core/src/error.rs).
pub data CoreError : Type 0 where
  invalid_mnemonic derivation signing address locked bad_passphrase_or_corrupt : CoreError
  serialization kdf : CoreError
  unsupported_vault_version : ℕ → CoreError
  crypto : CoreError
  invalid_contract_class : String → CoreError
  index_out_of_range : Domain → ℕ → CoreError

-- "AGNT" in ASCII, below the ceiling of a hardened index.
abbrev pub agent_account_index : ℕ
agent_account_index = 1095192148

abbrev pub max_hardened_index : ℕ
max_hardened_index = 2147483647

abbrev pub user_index_limit : ℕ
user_index_limit = agent_account_index

abbrev pub agent_index_limit : ℕ
agent_index_limit = 2147483648

-- (account_index, address_index)
unfoldable pub path_indices : Domain → ℕ → ℕ × ℕ
path_indices user n = (n, 0)
path_indices agent n = (agent_account_index, n)

abbrev pub index_limit : Domain → ℕ
index_limit user = user_index_limit
index_limit agent = agent_index_limit

unfoldable pub check_index : Domain → ℕ → Result CoreError (Unit {0})
check_index d n = if ltb n (index_limit d) then ok tt else err (index_out_of_range d n)

-- Two account numbers that `check_index` lets pass derive at the same path exactly if they are the
-- same number in the same branch; and both indices of a path that passes are below the hardened
-- bit, so that setting it on the account index keeps paths apart.
pub path_indices-injective :
    (d e : Domain) (m n : ℕ)
    → check_index d m ≡ ok tt
    → check_index e n ≡ ok tt
    → ((path_indices d m ≡ path_indices e n) ↔ ((d ≡ e) × (m ≡ n)))
      × ((path_indices d m).0 ≤ max_hardened_index)
      × ((path_indices d m).1 ≤ max_hardened_index)
unfolding path_indices check_index
path_indices-injective user user m n p q = ground arith
path_indices-injective user agent m n p q = ground arith
path_indices-injective agent user m n p q = ground arith
path_indices-injective agent agent m n p q = ground arith
