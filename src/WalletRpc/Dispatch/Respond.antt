-- ===== src/WalletRpc/Dispatch/Respond.antt =====
-- The table of methods that need a paired token (`handle` of crates/wallet-rpc/src/dispatch.rs). The
-- four methods of the privacy pool (crates/wallet-rpc/src/strk20) are an interface.
use strkd.Prelude.{String, Bool, true, false, ◌||◌, map, if◌then◌else◌}
use strkd.Prelude.Text.{text_eq, ◌<>◌}
use strkd.Prelude.Json.{Value, text, array_of}
use strkd.Prelude.Formats.{felt_hex}
use strkd.Prelude.Result.{Result, ok, err}
use strkd.WalletCore.Accounts.{scoped_for}
use strkd.WalletRpc.Auth.{PairedClient}
use strkd.WalletRpc.Dispatch.Deploy.{handle_add_declare, handle_deploy_account}
use strkd.WalletRpc.Dispatch.Invoke.{
  handle_add_invoke, handle_sign_typed_data, handle_request_funding, handle_sign_and_prove,
}
use strkd.WalletRpc.Dispatch.Params.{scope_for, account_to_json}
use strkd.WalletRpc.Dispatch.Prepare.{
  handle_typed_data_hash, handle_deployment_data, handle_estimate_fee,
}
use strkd.WalletRpc.Dispatch.PrepareDeclare.{SierraClass}
use strkd.WalletRpc.Dispatch.Proving.{handle_prove, handle_prove_status, handle_proof_activity}
use strkd.WalletRpc.Dispatch.Report.{handle_report_issue}
use strkd.WalletRpc.Dispatch.Wallet.{
  handle_request_grant, handle_switch_chain, handle_watch_asset, handle_funding_source,
  handle_create_agent_account,
}
use strkd.WalletRpc.Error.{WalletRpcError, not_implemented}
use strkd.WalletRpc.Handler.{Env, Action, asks}
use strkd.WalletRpc.Session.{registry}
use strkd.WalletRpc.State.{ServerState}

pub record Strk20 : Type 0 where
  pub balances : PairedClient → Value → Action Value
  pub prepare_invoke : PairedClient → Value → Action Value
  pub invoke_transaction : PairedClient → Value → Action Value
  pub register : PairedClient → Value → Action Value

-- `wallet_requestAccounts` and `companion_listAccounts`
unfoldable pub list_accounts : Bool → PairedClient → ServerState → Result WalletRpcError Value
list_accounts detailed client st = elim (registry st.session) [
  | err x ↦ err x
  | ok reg ↦ ok (
      array_of (
        map (λ a. if detailed then account_to_json a else text a.address)
          (scoped_for (scope_for client) reg)))
]

unfoldable pub respond : Env → SierraClass → Strk20 → PairedClient → String → Value → Action Value
respond e classes pool client method params =
    let h = e.host in
    if text_eq method "wallet_requestChainId"
    then asks (λ st. ok (text (felt_hex h.formats (h.krusty.as_felt st.session.chain))))
    else if text_eq method "wallet_requestAccounts"
    then asks (list_accounts false client)
    else if text_eq method "companion_listAccounts"
    then asks (list_accounts true client)
    else if text_eq method "wallet_deploymentData"
    then asks (handle_deployment_data h client)
    else if text_eq method "wallet_signTypedData"
    then handle_sign_typed_data e client params
    else if text_eq method "wallet_addInvokeTransaction"
    then handle_add_invoke e client params
    else if text_eq method "wallet_addDeclareTransaction"
    then handle_add_declare e classes client params
    else if text_eq method "companion_createAgentAccount"
    then handle_create_agent_account e client params
    else if text_eq method "wallet_switchStarknetChain"
    then handle_switch_chain e client params
    else if text_eq method "wallet_watchAsset"
    then handle_watch_asset e client params
    else if text_eq method "companion_fundingSource"
    then asks (handle_funding_source e)
    else if text_eq method "companion_reportIssue"
    then asks (handle_report_issue h.formats client params)
    else if text_eq method "companion_typedDataHash"
    then asks (λ _. handle_typed_data_hash h params)
    else if text_eq method "companion_estimateFee"
    then asks (handle_estimate_fee h client params)
    else if text_eq method "companion_requestGrant"
    then handle_request_grant e client params
    else if text_eq method "companion_requestFunding"
    then handle_request_funding e client params
    else if text_eq method "companion_deployAccount"
    then handle_deploy_account e client params
    else if text_eq method "companion_prove"
    then handle_prove e params
    else if text_eq method "companion_proveStatus"
    then asks (handle_prove_status params)
    else if text_eq method "companion_proofActivity"
    then asks handle_proof_activity
    else if text_eq method "companion_signAndProve"
    then handle_sign_and_prove e client params
    else if text_eq method "wallet_strk20Balances"
    then pool.balances client params
    else if text_eq method "wallet_strk20PrepareInvoke"
    then pool.prepare_invoke client params
    else if text_eq method "wallet_strk20InvokeTransaction"
    then pool.invoke_transaction client params
    else if text_eq method "companion_strk20Register"
    then pool.register client params
    else asks (λ _. err (not_implemented ("unknown method '" <> method <> "'")))

-- The methods whose handlers report a decision.
abbrev pub reports_decision : String → Bool
reports_decision method =
    text_eq method "wallet_signTypedData"
    || text_eq method "wallet_addInvokeTransaction"
    || text_eq method "wallet_addDeclareTransaction"
    || text_eq method "wallet_switchStarknetChain"
    || text_eq method "wallet_watchAsset"
    || text_eq method "companion_createAgentAccount"
    || text_eq method "companion_requestFunding"
    || text_eq method "companion_requestGrant"
    || text_eq method "companion_deployAccount"
    || text_eq method "companion_signAndProve"
    || text_eq method "wallet_strk20Balances"
    || text_eq method "wallet_strk20PrepareInvoke"
    || text_eq method "wallet_strk20InvokeTransaction"
    || text_eq method "companion_strk20Register"
