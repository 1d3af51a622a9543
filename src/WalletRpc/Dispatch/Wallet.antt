-- ===== src/WalletRpc/Dispatch/Wallet.antt =====
-- The handlers that change the wallet: agent accounts, the network, the watch list and grants
-- (crates/wallet-rpc/src/dispatch.rs).
use strkd.Prelude.{
  ℕ, ◌+◌, ◌*◌, ◌%◌, ◌^◌, String, true, Option, none, some, [], ◌∷◌, ltb, if◌then◌else◌,
}
use strkd.Prelude.Text.{◌<>◌}
use strkd.Prelude.Json.{Value, bool, text, number, object_of, get, as_u64}
use strkd.Prelude.Result.{Result, ok, err, ok_or}
use strkd.WalletCore.Contract.{ChainId}
use strkd.WalletCore.Accounts.{AccountRef}
use strkd.WalletCore.Vault.{EncryptedVault}
use strkd.WalletRpc.Approval.{ApprovalRequest}
use strkd.WalletRpc.Auth.{PairedClient, grant}
use strkd.WalletRpc.Dispatch.Params.{
  chain_name, param_str, opt_param_str, or_default, account_to_json,
}
use strkd.WalletRpc.Dispatch.PrepareFunding.{agent_only}
use strkd.WalletRpc.Error.{WalletRpcError, invalid_request, chain_id_not_supported, unknown}
use strkd.WalletRpc.Handler.{
  Env, Action, ◌>>=◌, ◌>>◌, done, asks, steps, prompt, gated_approval, unless_rejected, client_name,
}
use strkd.WalletRpc.Session.{WalletSession, set_chain, reseal, rollback_account, save}
use strkd.WalletRpc.Session.Keyring.{create_agent_account, manager_account}
use strkd.WalletRpc.State.{ServerState, add_watched_asset}

-- `Ord::clamp`
abbrev pub clamp : ℕ → ℕ → ℕ → ℕ
clamp lo hi n = if ltb n lo then lo else if ltb hi n then hi else n

unfoldable pub grant_days : Value → ℕ
grant_days params =
    clamp 1 90 (elim (get params "days") [ none ↦ 30 | some v ↦ or_default 30 (as_u64 v) ])

module _ (e : Env) where
  abbrev req_of : PairedClient → String → String → ApprovalRequest
  req_of client method summary = record {
    client_label = client_name client;
    method = method;
    summary = summary;
  }

  unfoldable pub grant_until : Value → ℕ
  grant_until params = (e.now + grant_days params * 24 * 60 * 60 * 1000) % 2 ^ 64

  unfoldable pub granted :
      PairedClient → Value → ServerState → Result WalletRpcError Value × ServerState
  granted client params st = (
    ok (
        object_of (
          ("granted", bool true)
          ∷ ("expires_at", number (grant_until params))
          ∷ ("days", number (grant_days params))
          ∷ [])),
    record st { clients = (grant e.clients_written client.id (grant_until params) st.clients).0 },
  )

  unfoldable pub handle_request_grant : PairedClient → Value → Action Value
  handle_request_grant client params = do
    decision ← prompt e (
        req_of client "companion_requestGrant" (
          "Agent "
          <> client_name client
          <> " requests auto-approval for "
          <> e.host.formats.decimal (grant_days params)
          <> " day(s) — its own-account operations would skip prompts (funding still always prompts). Approve?"))
    unless_rejected decision
    steps (granted client params)

  abbrev target_chain : Value → Result WalletRpcError ChainId
  target_chain params = elim (param_str params "chainId") [
    | err x ↦ err x
    | ok s ↦ elim (e.host.formats.from_hex s) [
      | none ↦ err (invalid_request "invalid chainId")
      | some x ↦ ok_or chain_id_not_supported (e.host.krusty.from_felt x)
    ]
  ]

  unfoldable pub handle_switch_chain : PairedClient → Value → Action Value
  handle_switch_chain client params = do
    target ← asks (λ _. target_chain params)
    decision ← prompt e (
        req_of client "wallet_switchStarknetChain"
          ("Switch the wallet network to " <> chain_name target))
    unless_rejected decision
    steps (λ st. (ok (bool true), record st { session = set_chain target st.session }))

  -- `asset`, or `options`, or the parameters themselves
  abbrev asset_of : Value → Value
  asset_of params = elim (get params "asset") [
    | some v ↦ v
    | none ↦ or_default params (get params "options")
  ]

  unfoldable pub handle_watch_asset : PairedClient → Value → Action Value
  handle_watch_asset client params = do
    let asset = asset_of params
    address ←
        asks
          (λ _. ok_or (invalid_request "asset missing 'address'") (opt_param_str asset "address"))
    let symbol = or_default "token" (opt_param_str asset "symbol")
    decision ←
        prompt e (req_of client "wallet_watchAsset" ("Watch token " <> symbol <> " at " <> address))
    unless_rejected decision
    steps (λ st. (ok (bool true), add_watched_asset asset st))

  unfoldable pub handle_funding_source : ServerState → Result WalletRpcError Value
  handle_funding_source st = elim (manager_account e.host 0 st.session) [
    | err x ↦ err x
    | ok manager ↦ ok (object_of (("address", text manager.address) ∷ ("index", number 0) ∷ []))
  ]

  -- The account was added to `s`: it is taken back where the vault cannot be written.
  abbrev stored :
      AccountRef
      → WalletSession
      → Option EncryptedVault
      → Result WalletRpcError EncryptedVault
      → Result WalletRpcError AccountRef × WalletSession × Option EncryptedVault
  stored account s file (err x) = (err x, rollback_account account.address s, file)
  stored account s file (ok v) =
      let (after, written) = save e.vault_written v file in
      if written
      then (ok account, s, after)
      else (err (unknown "failed to persist vault"), rollback_account account.address s, after)

  -- What is done with the account and the session that `create_agent_account` gives.
  abbrev keep_created :
      Result WalletRpcError AccountRef
      → WalletSession
      → ServerState
      → Result WalletRpcError AccountRef × ServerState
  keep_created (err x) s st = (err x, record st { session = s })
  keep_created (ok account) s st = elim st.vault_store [
    | none ↦ (ok account, record st { session = s })
    | some file ↦
        let (r, s', after) = stored account s file (reseal e.host e.draws s) in
        (r, record st { session = s'; vault_store = some after })
  ]

  unfoldable pub create_and_store :
      PairedClient → String → ServerState → Result WalletRpcError AccountRef × ServerState
  create_and_store client label st =
      let (r, s) = create_agent_account e.host client.id label st.session in keep_created r s st

  unfoldable pub handle_create_agent_account : PairedClient → Value → Action Value
  handle_create_agent_account client params = do
    asks (λ _. agent_only client)
    let label = or_default client.label (opt_param_str params "label")
    decision ←
        gated_approval e client "companion_createAgentAccount"
          ("Create a new agent account labelled \"" <> label <> "\"")
    unless_rejected decision
    account ← steps (create_and_store client label)
    done (account_to_json account)
