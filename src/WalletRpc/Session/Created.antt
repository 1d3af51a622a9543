-- ===== src/WalletRpc/Session/Created.antt =====
-- What creating an account, and taking it back, does to a session.
use strkd.Prelude.{ℕ, String, ◌≡◌, ◌≢◌, ◌<◌, ◌⊎◌, Option, none, some, All, arith, inl, inr, ap}
use strkd.Prelude.Result.{ok, err, Result-cases}
use strkd.WalletCore.Domain.{Domain, agent, index_limit, agent_index_limit}
use strkd.WalletCore.Contract.{open_zeppelin}
use strkd.WalletCore.Accounts.{
  AccountRef, HasRoom, IsFree, next_index, add, next_index-IsFree, remove_by_address-add,
}
use strkd.WalletCore.Keys.{account_address}
use strkd.WalletCore.Keys.InRange.{account_address-lt}
use strkd.WalletRpc.Error.{WalletRpcError}
use strkd.WalletRpc.Session.{Host, Unlocked, WalletSession, with_registry, rollback_account}
use strkd.WalletRpc.Session.Keyring.{derived, create_agent_account}

module _ (h : Host) where
  derived-fields :
      (u : Unlocked) (s : WalletSession) (d : Domain) (n : ℕ) (label : String)
      (owner : Option String) {a : AccountRef}
      → derived h u s d n label owner ≡ ok a
      → (a.domain ≡ d) × (a.index ≡ n) × (a.owner_client_id ≡ owner) × (n < index_limit d)
  unfolding derived
  derived-fields u s d n label owner e =
      elim (Result-cases (account_address h.krusty u.mnemonic d n none s.chain open_zeppelin)) [
        | inr (f, g) ↦ ground (arith, e, g)
        | inl (addr, g) ↦
            let lt = account_address-lt h.krusty u.mnemonic d n none s.chain open_zeppelin g in
            (ground (arith, e, g), ground (arith, e, g), ground (arith, e, g), lt)
      ]

  -- Creating an agent account in an unlocked session either fails and leaves the session as it was, or
  -- gives an account of the agent branch that belongs to the client, at an index below the branch's
  -- limit, which is added at the end of the registry, all else as it was. Where no index was the last
  -- one of a u32, the new one was free.
  pub create_agent_account-cases :
      (client_id label : String) (s : WalletSession) (u : Unlocked)
      → s.unlocked ≡ some u
      → HasRoom u.registry
      → ((e : WalletRpcError) × (create_agent_account h client_id label s ≡ (err e, s)))
        ⊎ ((a : AccountRef) × (create_agent_account h client_id label s
              ≡ (ok a, record s { unlocked = some (with_registry (add a u.registry) u) }))
            × (a.domain ≡ agent)
            × (a.owner_client_id ≡ some client_id)
            × (a.index < agent_index_limit)
            × IsFree agent a.index u.registry)
  unfolding create_agent_account
  create_agent_account-cases client_id label s u unlocked room =
      let n = next_index u.registry agent in
      elim (Result-cases (derived h u s agent n label (some client_id))) [
        | inr (e, f) ↦ inl (e, ground (arith, unlocked, f))
        | inl (a, f) ↦
            let (d, i, o, lt) = derived-fields u s agent n label (some client_id) f in
            inr (
              a,
              ground (arith, unlocked, f),
              d,
              o,
              rw i lt,
              rw i (next_index-IsFree agent u.registry room),
            )
      ]

-- Rolling back an account that was just added gives the session back, where no other account has its
-- address.
pub rollback_account-add :
    (a : AccountRef) (s : WalletSession) (u : Unlocked)
    → s.unlocked ≡ some u
    → All (λ b. b.address ≢ a.address) u.registry
    → rollback_account a.address (record s { unlocked = some (with_registry (add a u.registry) u) })
      ≡ s
unfolding rollback_account
rollback_account-add a s u unlocked others =
    let e = remove_by_address-add a u.registry others in ground (arith, ap (λ p. p.0) e, unlocked)
