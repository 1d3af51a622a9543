-- ===== src/WalletCore/Vault/Opening.antt =====
-- What opens a sealed vault, and what does not.
use strkd.Prelude.{ℕ, String, ◌≡◌, some, List, length, arith, inl, inr, Option-cases}
use strkd.Prelude.Result.{ok}
use strkd.WalletCore.Vault.{
  EncryptedVault, VaultCrypto, nonce_len, default_params, derive_key, seal, unseal,
}

-- Decryption under the key and nonce of an encryption gives the plaintext back.
abbrev pub Decrypts : VaultCrypto → Type 0
Decrypts c =
    (key nonce plaintext ciphertext : List ℕ)
    → c.encrypt key nonce plaintext ≡ some ciphertext
    → c.decrypt key nonce ciphertext ≡ some plaintext

module _ (c : VaultCrypto) where
  -- Where decryption undoes encryption and the random source gives nonces of the length asked for, a
  -- vault that `seal` gives opens under the same passphrase, to the same plaintext.
  pub unseal-seal :
      (salt nonce : List ℕ) (passphrase : String) (plaintext : List ℕ) (v : EncryptedVault)
      → Decrypts c
      → length nonce ≡ nonce_len
      → seal c (some salt) (some nonce) passphrase plaintext ≡ ok v
      → unseal c passphrase v ≡ ok plaintext
  unfolding seal unseal derive_key
  unseal-seal salt nonce passphrase plaintext v law twelve sealed =
      elim (Option-cases (c.argon2id passphrase (default_params salt))) [
        | inl e ↦ ground (arith, e, sealed)
        | inr (key, e) ↦ elim (Option-cases (c.encrypt key nonce plaintext)) [
          | inl g ↦ ground (arith, e, g, sealed)
          | inr (ciphertext, g) ↦
              ground (arith, e, g, sealed, twelve, law key nonce plaintext ciphertext g)
        ]
      ]
