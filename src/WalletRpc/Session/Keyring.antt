-- ===== src/WalletRpc/Session/Keyring.antt =====
-- The accounts that a session derives (crates/wallet-rpc/src/session.rs).
use strkd.Prelude.{ℕ, String, Option, none, some}
use strkd.Prelude.Formats.{address_hex}
use strkd.Prelude.Result.{Result, ok, err, ◌>>=◌}
use strkd.WalletCore.Domain.{Domain, user, agent}
use strkd.WalletCore.Contract.{open_zeppelin}
use strkd.WalletCore.Accounts.{AccountRef, next_index, add}
use strkd.WalletCore.Keys.{account_address}
use strkd.WalletRpc.Error.{WalletRpcError, locked}
use strkd.WalletRpc.Session.{Host, Unlocked, WalletSession, core, with_registry, require_unlocked}

module _ (h : Host) where
  -- An account with its address derived on the session's chain.
  unfoldable pub derived :
      Unlocked
      → WalletSession
      → Domain
      → ℕ
      → String
      → Option String
      → Result WalletRpcError AccountRef
  derived u s d index label owner = do
    addr ← core h (account_address h.krusty u.mnemonic d index none s.chain open_zeppelin)
    ok (record {
      domain = d;
      index = index;
      address = address_hex h.formats addr;
      label = label;
      contract = open_zeppelin;
      owner_client_id = owner;
    })

  abbrev pub registered :
      Unlocked
      → Result WalletRpcError AccountRef
      → WalletSession
      → Result WalletRpcError AccountRef × WalletSession
  registered u (err e) s = (err e, s)
  registered u (ok account) s =
      (ok account, record s { unlocked = some (with_registry (add account u.registry) u) })

  unfoldable pub create_agent_account :
      String → String → WalletSession → Result WalletRpcError AccountRef × WalletSession
  create_agent_account client_id label s = elim s.unlocked [
    | none ↦ (err locked, s)
    | some u ↦
        registered u (derived u s agent (next_index u.registry agent) label (some client_id)) s
  ]

  unfoldable pub create_user_account :
      String → WalletSession → Result WalletRpcError AccountRef × WalletSession
  create_user_account label s = elim s.unlocked [
    | none ↦ (err locked, s)
    | some u ↦ registered u (derived u s user (next_index u.registry user) label none) s
  ]

  unfoldable pub manager_account : ℕ → WalletSession → Result WalletRpcError AccountRef
  manager_account index s = do u ← require_unlocked s; derived u s user index "manager" none
