-- ===== src/WalletRpc/Session/Reseal.antt =====
-- A session that is sealed, locked and unlocked again.
use strkd.Prelude.{ℕ, ◌≡◌, some, List, length, arith, inl, inr, Option-cases}
use strkd.Prelude.Result.{ok, Result-cases}
use strkd.WalletCore.Vault.{EncryptedVault, nonce_len, seal}
use strkd.WalletCore.Vault.Opening.{Decrypts, unseal-seal}
use strkd.WalletRpc.Session.{
  Host, VaultContents, Unlocked, WalletSession, contents_of, unlock, reseal, reveal_mnemonic,
  require_unlocked,
}

-- Reading what was written of these contents gives them back.
abbrev pub Reads : Host → VaultContents → Type 0
Reads h c = (bytes : List ℕ) → h.to_vec c ≡ some bytes → h.from_slice bytes ≡ some c

abbrev pub contents_in : Unlocked → VaultContents
contents_in u = record { mnemonic = u.mnemonic; registry = u.registry }

module _ (h : Host) where
  pub contents_of-reseal :
      (u : Unlocked) (s : WalletSession) (salt nonce : List ℕ) (v : EncryptedVault)
      → Decrypts h.vault
      → Reads h (contents_in u)
      → length nonce ≡ nonce_len
      → s.unlocked ≡ some u
      → reseal h (record { salt = some salt; nonce = some nonce }) s ≡ ok v
      → contents_of h u.vault_passphrase v
        ≡ ok (record { mnemonic = u.mnemonic; registry = u.registry })
  unfolding reseal require_unlocked contents_of
  contents_of-reseal u s salt nonce v law reads twelve unlocked sealed =
      let contents = contents_in u in
      elim (Option-cases (h.to_vec contents)) [
        | inl e ↦ ground (arith, e, unlocked, sealed)
        | inr (bytes, e) ↦
            elim (Result-cases (seal h.vault (some salt) (some nonce) u.vault_passphrase bytes)) [
              | inr (f, g) ↦ ground (arith, e, g, unlocked, sealed)
              | inl (w, g) ↦ ground (
                arith,
                e,
                g,
                unlocked,
                sealed,
                reads bytes e,
                unseal-seal h.vault salt nonce u.vault_passphrase bytes w law twelve g,
              )
            ]
      ]

  -- Where decryption undoes encryption, reading these contents undoes writing them and the source gives
  -- nonces of the length asked for: a vault that an unlocked session reseals unlocks any session under
  -- the same passphrase to the same mnemonic, passphrase and registry, on that session's chain; and
  -- that passphrase reveals the mnemonic from it.
  pub unlock-reseal :
      (u : Unlocked) (s t : WalletSession) (salt nonce : List ℕ) (v : EncryptedVault)
      → Decrypts h.vault
      → Reads h (contents_in u)
      → length nonce ≡ nonce_len
      → s.unlocked ≡ some u
      → reseal h (record { salt = some salt; nonce = some nonce }) s ≡ ok v
      → (unlock h v u.vault_passphrase t ≡ (ok tt, record { chain = t.chain; unlocked = some u }))
        × (reveal_mnemonic h v u.vault_passphrase ≡ ok u.mnemonic)
  unfolding unlock reveal_mnemonic contents_of
  unlock-reseal u s t salt nonce v law reads twelve unlocked sealed =
      let e = contents_of-reseal u s salt nonce v law reads twelve unlocked sealed in
      (ground (arith, e), ground (arith, e))
