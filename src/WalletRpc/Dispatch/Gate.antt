-- ===== src/WalletRpc/Dispatch/Gate.antt =====
-- What a handler does before and after the approval of its method, for every method.
use strkd.Prelude.{
  String, ◌≡◌, refl, sym, subst, inl, inr, Bool, Option, none, some, List, [], arith, ◌||◌,
  Bool-cases, if◌then◌else◌,
}
use strkd.Prelude.Text.{text_eq, text_eq-true}
use strkd.Prelude.Json.{Value}
use strkd.Felt.{Felt}
use strkd.WalletCore.Accounts.{AccountRef}
use strkd.WalletCore.Contract.{ChainId}
use strkd.WalletCore.Tx.{Call}
use strkd.WalletRpc.Auth.{PairedClient}
use strkd.WalletRpc.Dispatch.Deploy.{handle_add_declare, handle_deploy_account}
use strkd.WalletRpc.Dispatch.Invoke.{
  enqueue, sign_and_submit, handle_add_invoke, handle_sign_typed_data, handle_request_funding,
  handle_sign_and_prove,
}
use strkd.WalletRpc.Dispatch.PrepareDeclare.{SierraClass}
use strkd.WalletRpc.Dispatch.Proving.{handle_prove}
use strkd.WalletRpc.Dispatch.Wallet.{
  handle_request_grant, handle_switch_chain, handle_watch_asset, handle_create_agent_account,
}
use strkd.WalletRpc.Handler.{Env, Action}
use strkd.WalletRpc.Handler.Approvals.{protected}
use strkd.WalletRpc.Handler.Rules.{
  Keeps, Guarded, Keeps-bind, keeps_rules, Guarded-asks-bind, Guarded-gated_approval,
  Guarded-prompt, Guarded-steps-done,
}
use strkd.WalletRpc.Node.{FeeBounds}
use strkd.WalletRpc.State.{ServerState}
use strkd.Prover.Enqueue.{ProveRequest}

module _ (e : Env) where
  sign_and_submit-Keeps :
      (caller : Option PairedClient) (method : String) (chain : ChainId) (account : AccountRef)
      (calls : List Call) (nonce : Felt) (bounds : FeeBounds) (submit : Bool)
      (proof_facts : List Felt) (proof : Option String)
      → Keeps e caller method
          (sign_and_submit e chain account calls nonce bounds submit proof_facts proof)
  unfolding sign_and_submit
  sign_and_submit-Keeps caller method chain account calls nonce bounds submit proof_facts proof =
      search keeps_rules depth 10

  pub handle_add_invoke-Guarded :
      (client : PairedClient) (params : Value)
      → Guarded e (some client) "wallet_addInvokeTransaction" (handle_add_invoke e client params)
  unfolding handle_add_invoke
  handle_add_invoke-Guarded client params = Guarded-asks-bind e _ _ _ _ λ p.
      Guarded-gated_approval e client _ _ _ refl (
        sign_and_submit-Keeps _ _ p.chain p.account p.calls p.nonce p.bounds p.submit p.proof_facts
          p.proof)

  pub handle_sign_typed_data-Guarded :
      (client : PairedClient) (params : Value)
      → Guarded e (some client) "wallet_signTypedData" (handle_sign_typed_data e client params)
  unfolding handle_sign_typed_data
  handle_sign_typed_data-Guarded client params =
      Guarded-asks-bind e _ _ _ _
        λ p. Guarded-gated_approval e client _ _ _ refl (search keeps_rules)

  pub handle_request_funding-Guarded :
      (client : PairedClient) (params : Value)
      → Guarded e (some client) "companion_requestFunding" (handle_request_funding e client params)
  unfolding handle_request_funding
  handle_request_funding-Guarded client params = Guarded-asks-bind e _ _ _ _ λ p.
      Guarded-prompt e _ _ _ _ refl (
        Keeps-bind _ _ _ _ _
          (sign_and_submit-Keeps _ _ p.chain p.manager p.calls p.nonce p.bounds p.submit [] none)
          (λ result. search keeps_rules))

  pub handle_sign_and_prove-Guarded :
      (client : PairedClient) (params : Value)
      → Guarded e (some client) "companion_signAndProve" (handle_sign_and_prove e client params)
  unfolding handle_sign_and_prove
  handle_sign_and_prove-Guarded client params =
      Guarded-asks-bind e _ _ _ _
        λ p. Guarded-gated_approval e client _ _ _ refl (search keeps_rules depth 10)

  pub handle_add_declare-Guarded :
      (classes : SierraClass) (client : PairedClient) (params : Value)
      → Guarded e
          (some client)
          "wallet_addDeclareTransaction"
          (handle_add_declare e classes client params)
  unfolding handle_add_declare
  handle_add_declare-Guarded classes client params =
      Guarded-asks-bind e _ _ _ _
        λ p. Guarded-gated_approval e client _ _ _ refl (search keeps_rules depth 12)

  pub handle_deploy_account-Guarded :
      (client : PairedClient) (params : Value)
      → Guarded e (some client) "companion_deployAccount" (handle_deploy_account e client params)
  unfolding handle_deploy_account
  handle_deploy_account-Guarded client params =
      Guarded-asks-bind e _ _ _ _
        λ p. Guarded-gated_approval e client _ _ _ refl (search keeps_rules depth 10)

  pub handle_create_agent_account-Guarded :
      (client : PairedClient) (params : Value)
      → Guarded e
          (some client)
          "companion_createAgentAccount"
          (handle_create_agent_account e client params)
  unfolding handle_create_agent_account
  handle_create_agent_account-Guarded client params =
      Guarded-asks-bind e _ _ _ _
        λ _. Guarded-gated_approval e client _ _ _ refl (search keeps_rules)

  pub handle_request_grant-Guarded :
      (client : PairedClient) (params : Value)
      → Guarded e (some client) "companion_requestGrant" (handle_request_grant e client params)
  unfolding handle_request_grant
  handle_request_grant-Guarded client params = Guarded-prompt e _ _ _ _ refl (search keeps_rules)

  pub handle_switch_chain-Guarded :
      (client : PairedClient) (params : Value)
      → Guarded e (some client) "wallet_switchStarknetChain" (handle_switch_chain e client params)
  unfolding handle_switch_chain
  handle_switch_chain-Guarded client params =
      Guarded-asks-bind e _ _ _ _ λ _. Guarded-prompt e _ _ _ _ refl (search keeps_rules)

  pub handle_watch_asset-Guarded :
      (client : PairedClient) (params : Value)
      → Guarded e (some client) "wallet_watchAsset" (handle_watch_asset e client params)
  unfolding handle_watch_asset
  handle_watch_asset-Guarded client params =
      Guarded-asks-bind e _ _ _ _ λ _. Guarded-prompt e _ _ _ _ refl (search keeps_rules)

  enqueue-protected :
      (req : ProveRequest Value) (st : ServerState) → protected (enqueue e req st).1 ≡ protected st
  unfolding enqueue
  enqueue-protected req st = ground arith

  pub handle_prove-Guarded :
      (caller : Option PairedClient) (method : String) (params : Value)
      → Guarded e caller method (handle_prove e params)
  unfolding handle_prove
  handle_prove-Guarded caller method params =
      Guarded-steps-done e caller method _ _ (enqueue-protected _)

  -- A row of the table of methods.
  pub Guarded-row :
      (caller : Option PairedClient) (method name : String) (m n : Action Value)
      → Guarded e caller name m
      → Guarded e caller method n
      → Guarded e caller method (if text_eq method name then m else n)
  Guarded-row caller method name m n k l = elim (Bool-cases (text_eq method name)) [
    | inl t ↦ rw t (subst (λ z. Guarded e caller z m) (sym (text_eq-true method name t)) k)
    | inr f ↦ rw f l
  ]

-- The methods of the privacy pool.
abbrev pub is_strk20 : String → Bool
is_strk20 method =
    text_eq method "wallet_strk20Balances"
    || text_eq method "wallet_strk20PrepareInvoke"
    || text_eq method "wallet_strk20InvokeTransaction"
    || text_eq method "companion_strk20Register"
