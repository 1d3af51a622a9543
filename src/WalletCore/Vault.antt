-- ===== src/WalletCore/Vault.antt =====
-- The encrypted vault (crates/wallet-core/src/vault.rs). Argon2id and AES-256-GCM are the record
-- `VaultCrypto`; what the system's random source gives is an argument, `none` where it fails.
pub mod Opening
use strkd.Prelude.{ℕ, String, Bool, not, Option, List, ◌==◌, length, if◌then◌else◌}
use strkd.Prelude.Result.{Result, ok, err, ◌>>=◌, ok_or}
use strkd.WalletCore.Domain.{
  CoreError, crypto, kdf, bad_passphrase_or_corrupt, unsupported_vault_version,
}

pub record KdfParams : Type 0 where
  pub m_cost : ℕ
  pub t_cost : ℕ
  pub p_cost : ℕ
  pub salt : List ℕ

pub record EncryptedVault : Type 0 where
  pub version : ℕ
  pub kdf_params : KdfParams
  pub nonce : List ℕ
  pub ciphertext : List ℕ

-- Bytes are numbers. `argon2id` is `Params::new` and `hash_password_into` for a key of 32 bytes.
pub record VaultCrypto : Type 0 where
  pub argon2id : String → KdfParams → Option (List ℕ)
  pub encrypt : List ℕ → List ℕ → List ℕ → Option (List ℕ)
  pub decrypt : List ℕ → List ℕ → List ℕ → Option (List ℕ)

abbrev pub vault_version : ℕ
vault_version = 2

abbrev pub nonce_len : ℕ
nonce_len = 12

abbrev pub default_params : List ℕ → KdfParams
default_params salt = record { m_cost = 65536; t_cost = 3; p_cost = 1; salt = salt }

unfoldable pub is_supported_version : EncryptedVault → Bool
is_supported_version v = v.version == vault_version

module _ (c : VaultCrypto) where
  unfoldable pub derive_key : String → KdfParams → Result CoreError (List ℕ)
  derive_key passphrase params = ok_or kdf (c.argon2id passphrase params)

  -- `random_salt` and `random_nonce` are the two draws of `random_bytes`.
  unfoldable pub seal :
      Option (List ℕ) → Option (List ℕ) → String → List ℕ → Result CoreError EncryptedVault
  seal random_salt random_nonce passphrase plaintext = do
    salt ← ok_or crypto random_salt
    key ← derive_key passphrase (default_params salt)
    nonce ← ok_or crypto random_nonce
    ciphertext ← ok_or crypto (c.encrypt key nonce plaintext)
    ok (record {
      version = vault_version;
      kdf_params = default_params salt;
      nonce = nonce;
      ciphertext = ciphertext;
    })

  unfoldable pub unseal : String → EncryptedVault → Result CoreError (List ℕ)
  unseal passphrase v =
      if not (v.version == vault_version)
      then err (unsupported_vault_version v.version)
      else if not (length v.nonce == nonce_len)
      then err bad_passphrase_or_corrupt
      else do
        key ← derive_key passphrase v.kdf_params
        ok_or bad_passphrase_or_corrupt (c.decrypt key v.nonce v.ciphertext)
