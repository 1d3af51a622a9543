-- ===== src/WalletRpc/Dispatch/PrepareFunding.antt =====
-- What `companion_requestFunding` and `companion_deployAccount` work out before they ask
-- (crates/wallet-rpc/src/dispatch.rs).
use strkd.Prelude.{
  ℕ, ◌^◌, String, Bool, Option, none, some, List, [], ◌∷◌, ltb, ◌==◌, if◌then◌else◌,
}
use strkd.Prelude.Text.{◌<>◌}
use strkd.Prelude.Json.{Value, null, get, as_u64}
use strkd.Prelude.Result.{Result, ok, err, ◌>>=◌, ◌>>◌, ok_or}
use strkd.Felt.{Felt}
use strkd.WalletCore.Contract.{ChainId, DeploymentData}
use strkd.WalletCore.Accounts.{AccountRef}
use strkd.WalletCore.Tx.{Call, encode_calls, get_selector_from_name}
use strkd.WalletRpc.Auth.{ClientKind, PairedClient}
use strkd.WalletRpc.Dispatch.Params.{
  chain_name, opt_param_str, or_default, is_set, parse_u128_field, opt_fee_bounds,
}
use strkd.WalletRpc.Dispatch.Resolve.{
  named_or_first, from_node, node_or_err, resolve_chain, resolve_exec,
}
use strkd.WalletRpc.Error.{WalletRpcError, invalid_request, forbidden, precondition, unknown}
use strkd.WalletRpc.Node.{FeeBounds}
use strkd.WalletRpc.Session.{Host}
use strkd.WalletRpc.Session.Keyring.{manager_account}
use strkd.WalletRpc.Session.Signing.{stored_address, deployment_data_for}
use strkd.WalletRpc.State.{ServerState, node_for}

abbrev pub strk_token_address : String
strk_token_address = "0x04718f5a0fc34cc1af16a1cdee98ffb20c31f5cd61d6ab07201858f4287c938d"

pub record FundingPlan : Type 0 where
  pub manager_index : ℕ
  pub manager : AccountRef
  pub recipient : AccountRef
  pub chain : ChainId
  pub calls : List Call
  pub nonce : Felt
  pub bounds : FeeBounds
  pub submit : Bool
  pub amount : ℕ
  pub token_str : String

pub record DeployPlan : Type 0 where
  pub account : AccountRef
  pub chain : ChainId
  pub bounds : FeeBounds
  pub submit : Bool

-- `u32::try_from`
abbrev to_u32 : ℕ → Option ℕ
to_u32 n = if ltb n (2 ^ 32) then some n else none

unfoldable pub manager_index_of : Value → Result WalletRpcError ℕ
manager_index_of params = elim (get params "funding_source_index") [
  | none ↦ ok 0
  | some null ↦ ok 0
  | some v ↦
      ok_or (invalid_request "bad funding_source_index")
        (elim (as_u64 v) [ none ↦ none | some n ↦ to_u32 n ])
]

abbrev pub agent_only : PairedClient → Result WalletRpcError (Unit {0})
agent_only client = elim client.kind [ ClientKind.agent ↦ ok tt | ClientKind.app ↦ err forbidden ]

module _ (h : Host) where
  -- The manager's deployment is checked where there is a node.
  abbrev manager_deployed :
      ChainId → AccountRef → Felt → ServerState → Result WalletRpcError (Unit {0})
  manager_deployed chain manager sender st = elim (node_for chain st) [
    | none ↦ ok tt
    | some rpc ↦ do
      deployed ← from_node (rpc.is_deployed sender)
      if deployed
          then ok tt
          else err (
              precondition (
                "funding source (manager) account "
                <> manager.address
                <> " is not deployed on "
                <> chain_name chain
                <> ". Deploy and fund it on "
                <> chain_name chain
                <> " first — it pays the transfer fee."))
  ]

  unfoldable pub transfer : Felt → Felt → ℕ → List Call
  transfer token recipient amount =
      (record {
        to = token;
        selector = get_selector_from_name h.external "transfer";
        calldata = recipient ∷ amount ∷ 0 ∷ [];
      })
      ∷ []

  -- `handle_request_funding`
  unfoldable pub prepare_funding :
      PairedClient → Value → ServerState → Result WalletRpcError FundingPlan
  prepare_funding client params st = do
    agent_only client
    let submit = is_set params "submit"
    amount ← parse_u128_field h.formats params "amount"
    if amount == 0 then err (invalid_request "amount must be > 0") else ok tt
    let token_str = or_default strk_token_address (opt_param_str params "token")
    token ← ok_or (invalid_request "bad token address") (h.formats.from_hex token_str)
    manager_index ← manager_index_of params
    found ← named_or_first h client (opt_param_str params "recipient") st
    recipient ←
        ok_or
          (invalid_request
            "no account to fund (create one with companion_createAgentAccount, or pass a recipient you own)")
          found
    recipient_felt ← stored_address h recipient
    manager ← manager_account h manager_index st.session
    manager_sender ← ok_or (unknown "bad manager address") (h.formats.from_hex manager.address)
    let calls = transfer token recipient_felt amount
    chain ← resolve_chain h params st
    manager_deployed chain manager manager_sender st
    exec ← resolve_exec h chain manager_sender (encode_calls calls) params none st
    ok (record {
      manager_index = manager_index;
      manager = manager;
      recipient = recipient;
      chain = chain;
      calls = calls;
      nonce = exec.0;
      bounds = exec.1;
      submit = submit;
      amount = amount;
      token_str = token_str;
    })

  abbrev not_deployed : ChainId → AccountRef → ServerState → Result WalletRpcError (Unit {0})
  not_deployed chain account st = elim (node_for chain st) [
    | none ↦ ok tt
    | some rpc ↦ do
      addr ← stored_address h account
      deployed ← from_node (rpc.is_deployed addr)
      if deployed
          then err (
              precondition
                ("account " <> account.address <> " is already deployed on " <> chain_name chain))
          else ok tt
  ]

  -- The given bounds, or an estimate of the deployment.
  abbrev deploy_bounds :
      ChainId → DeploymentData → Option FeeBounds → ServerState → Result WalletRpcError FeeBounds
  deploy_bounds chain d (some b) st = ok b
  deploy_bounds chain d none st = do
    rpc ← node_or_err chain st
    from_node (rpc.estimate_deploy_account d.address d.class_hash d.constructor_calldata d.salt)

  -- `handle_deploy_account`
  unfoldable pub prepare_deploy :
      PairedClient → Value → ServerState → Result WalletRpcError DeployPlan
  prepare_deploy client params st = do
    let submit = is_set params "submit"
    found ← named_or_first h client (opt_param_str params "account") st
    account ← ok_or (invalid_request "no account in scope to deploy") found
    chain ← resolve_chain h params st
    not_deployed chain account st
    d ← deployment_data_for h account st.session
    given ← opt_fee_bounds h.formats params
    bounds ← deploy_bounds chain d given st
    ok (record { account = account; chain = chain; bounds = bounds; submit = submit })
