-- ===== src/WalletRpc/Dispatch/Stored.antt =====
-- What creating an agent account leaves in memory and on disk, and how long a grant lasts.
use strkd.Prelude.{
  ℕ, ◌+◌, ◌≤◌, ◌<◌, ◌^◌, String, ◌≡◌, ◌≢◌, ◌⊎◌, refl, inl, inr, Option, some, List, arith, All,
  length, Bool-cases,
}
use strkd.Prelude.Json.{Value}
use strkd.Prelude.Result.{ok, err, Result-cases}
use strkd.WalletCore.Accounts.{AccountRef, HasRoom, IsFree, add}
use strkd.WalletCore.Domain.{agent, agent_index_limit}
use strkd.WalletCore.Vault.{EncryptedVault, nonce_len}
use strkd.WalletCore.Vault.Opening.{Decrypts}
use strkd.WalletRpc.Auth.{PairedClient}
use strkd.WalletRpc.Dispatch.Wallet.{create_and_store, grant_days, grant_until}
use strkd.WalletRpc.Error.{WalletRpcError, unknown}
use strkd.WalletRpc.Handler.{Env}
use strkd.WalletRpc.Session.{
  Host, Unlocked, WalletSession, with_registry, reseal, save, contents_of,
}
use strkd.WalletRpc.Session.Created.{create_agent_account-cases, rollback_account-add}
use strkd.WalletRpc.Session.Keyring.{create_agent_account}
use strkd.WalletRpc.Session.Reseal.{Reads, contents_in, contents_of-reseal}
use strkd.WalletRpc.State.{ServerState}

-- The file opens under the session's passphrase to the session's mnemonic and registry.
abbrev pub Holds : Host → Unlocked → EncryptedVault → Type 0
Holds h u v =
    contents_of h u.vault_passphrase v
    ≡ ok (record { mnemonic = u.mnemonic; registry = u.registry })

module _ (e : Env) (client : PairedClient) (label : String) where
  after_created :
      (salt nonce : List ℕ) (st : ServerState) (u : Unlocked) (file : Option EncryptedVault)
      (a : AccountRef)
      → Decrypts e.host.vault
      → Reads e.host (contents_in (with_registry (add a u.registry) u))
      → e.draws ≡ record { salt = some salt; nonce = some nonce }
      → length nonce ≡ nonce_len
      → st.vault_store ≡ some file
      → st.session.unlocked ≡ some u
      → All (λ b. b.address ≢ a.address) u.registry
      → create_agent_account e.host client.id label st.session
        ≡ (ok a, record st.session { unlocked = some (with_registry (add a u.registry) u) })
      → ((x : WalletRpcError) × (create_and_store e client label st ≡ (err x, st)))
        ⊎ (((create_and_store e client label st).0 ≡ ok a)
            × ((create_and_store e client label st).1.session
                ≡ record st.session { unlocked = some (with_registry (add a u.registry) u) })
            × ((v : EncryptedVault) × ((create_and_store e client label st).1.vault_store
                  ≡ some (some v))
                × Holds e.host (with_registry (add a u.registry) u) v))
  unfolding create_and_store save
  after_created salt nonce st u file a law reads drawn twelve stored unlocked others made =
      let s : WalletSession = record st.session {
        unlocked = some (with_registry (add a u.registry) u);
      } in
      let undo = rollback_account-add a st.session u unlocked others in
      elim (Result-cases (reseal e.host e.draws s)) [
        | inr (x, f) ↦ inl (x, ground (arith, f, made, stored, undo))
        | inl (v, f) ↦ elim (Bool-cases e.vault_written) [
          | inr w ↦
              inl (unknown "failed to persist vault", ground (arith, f, made, stored, undo, w))
          | inl w ↦ inr (
            ground (arith, f, made, stored, w),
            ground (arith, f, made, stored, w),
            (
              v,
              ground (arith, f, made, stored, w),
              contents_of-reseal e.host (with_registry (add a u.registry) u) s salt nonce v law
                  reads twelve refl (rw (← drawn) f),
            ),
          )
        ]
      ]

  -- In an unlocked session with a vault file, creating an agent account is all or nothing. Either it
  -- fails and the whole state is as it was, in memory and on disk; or it answers with an account of the
  -- client at a free index of the agent branch, below the branch's limit, the session's registry has
  -- it at its end, and the vault file opens under the session's passphrase to the mnemonic and that
  -- registry. It takes that decryption undoes encryption, the nonce has the
  -- length asked for, no index was the last one of a u32, and that the account that is derived has an
  -- address of its own and contents with it that are read back as they were written.
  pub create_and_store-cases :
      (salt nonce : List ℕ) (st : ServerState) (u : Unlocked) (file : Option EncryptedVault)
      → Decrypts e.host.vault
      → e.draws ≡ record { salt = some salt; nonce = some nonce }
      → length nonce ≡ nonce_len
      → st.vault_store ≡ some file
      → st.session.unlocked ≡ some u
      → HasRoom u.registry
      → ((a : AccountRef) (t : WalletSession)
          → create_agent_account e.host client.id label st.session ≡ (ok a, t)
          → All (λ b. b.address ≢ a.address) u.registry
            × Reads e.host (contents_in (with_registry (add a u.registry) u)))
      → ((x : WalletRpcError) × (create_and_store e client label st ≡ (err x, st)))
        ⊎ ((a : AccountRef) × ((create_and_store e client label st).0 ≡ ok a)
            × (a.domain ≡ agent)
            × (a.owner_client_id ≡ some client.id)
            × (a.index < agent_index_limit)
            × IsFree agent a.index u.registry
            × ((create_and_store e client label st).1.session
                ≡ record st.session { unlocked = some (with_registry (add a u.registry) u) })
            × ((v : EncryptedVault) × ((create_and_store e client label st).1.vault_store
                  ≡ some (some v))
                × Holds e.host (with_registry (add a u.registry) u) v))
  unfolding create_and_store
  create_and_store-cases salt nonce st u file law drawn twelve stored unlocked room others =
      elim (create_agent_account-cases e.host client.id label st.session u unlocked room) [
        | inl (x, f) ↦ inl (x, ground (arith, f))
        | inr (a, f, d, o, lt, fr) ↦
            elim (after_created salt nonce st u file a law (others a _ f).1 drawn twelve stored
              unlocked (others a _ f).0 f) [
                | inl failed ↦ inl failed
                | inr (r, s, v) ↦ inr (a, r, d, o, lt, fr, s, v)
              ]
      ]

grant_days_bounds : (params : Value) → (1 ≤ grant_days params) × (grant_days params ≤ 90)
unfolding grant_days
grant_days_bounds params = ground arith

-- A grant lasts from one to ninety days, whatever the request says, where the clock is a time that
-- a u64 of milliseconds holds for that long.
pub grant_until_bounds :
    (e : Env) (params : Value)
    → e.now + 7776000000 < 2 ^ 64
    → (1 ≤ grant_days params)
      × (grant_days params ≤ 90)
      × (e.now + 86400000 ≤ grant_until e params)
      × (grant_until e params ≤ e.now + 7776000000)
unfolding grant_until
grant_until_bounds e params h =
    let (lo, hi) = grant_days_bounds params in
    (lo, hi, omega (arith, lo, hi), omega (arith, lo, hi))
