-- ===== src/WalletRpc/Dispatch/Invoke.antt =====
-- Invoking: `wallet_addInvokeTransaction`, `wallet_signTypedData`, `companion_requestFunding` and
-- `companion_signAndProve` (crates/wallet-rpc/src/dispatch.rs).
use strkd.Prelude.{
  String, Bool, true, false, Option, none, some, List, [], ◌∷◌, if◌then◌else◌, length,
}
use strkd.Prelude.Text.{◌<>◌}
use strkd.Prelude.Json.{Value, bool, text, number, object_of, insert, get, as_u64}
use strkd.Prelude.Formats.{felt_hex}
use strkd.Prelude.Result.{Result, ok, err}
use strkd.Felt.{Felt}
use strkd.WalletCore.Contract.{ChainId, mainnet, sepolia, serialize_signature}
use strkd.WalletCore.Accounts.{AccountRef}
use strkd.WalletCore.Tx.{Call, InvokeV3Params, default_params}
use strkd.WalletRpc.Approval.{ApprovalRequest}
use strkd.WalletRpc.Auth.{PairedClient}
use strkd.WalletRpc.Dispatch.Params.{chain_name, opt_param_str}
use strkd.WalletRpc.Dispatch.Prepare.{
  InvokePlan, prepare_invoke, prepare_virtual, prepare_typed_data,
}
use strkd.WalletRpc.Dispatch.PrepareFunding.{FundingPlan, prepare_funding}
use strkd.WalletRpc.Dispatch.Resolve.{from_node, node_or_err}
use strkd.WalletRpc.Dispatch.Summary.{bounds_summary, summarize_calls}
use strkd.WalletRpc.Error.{WalletRpcError, not_implemented}
use strkd.WalletRpc.Handler.{
  Env, broadcast, Action, ◌>>=◌, ◌>>◌, done, asks, steps, sends, prompt, gated_approval,
  unless_rejected, client_name,
}
use strkd.WalletRpc.Node.{FeeBounds, hexes, invoke_v3_tx_json}
use strkd.WalletRpc.Handler.Signing.{signs_typed_data, signs_invoke}
use strkd.WalletRpc.Session.Signing.{stored_address}
use strkd.WalletRpc.State.{ServerState}
use strkd.Prover.Enqueue.{ProverState, ProveRequest, enqueue_prove}

-- `InvokeV3Params { nonce, tip: 0, ..bounds, proof_facts, ..Default::default() }`
abbrev pub params_of : Felt → FeeBounds → List Felt → InvokeV3Params
params_of nonce bounds proof_facts = record default_params {
  nonce = nonce;
  l1_gas = bounds.l1_gas;
  l2_gas = bounds.l2_gas;
  l1_data_gas = bounds.l1_data_gas;
  proof_facts = proof_facts;
}

-- `prover_or_err`
unfoldable pub prover_or_err : ServerState → Result WalletRpcError (ProverState Value)
prover_or_err st = elim st.prover [
  | none ↦ err (not_implemented "on-device proving is not available on this service")
  | some p ↦ ok p
]

unfoldable pub prover_network : ChainId → String
prover_network mainnet = "mainnet"
prover_network sepolia = "testnet"

abbrev kind_of : List Felt → String
kind_of [] = ""
kind_of (_ ∷ _) = " (SNIP-36 proof-carrying)"

module _ (e : Env) where
  -- `prover::enqueue_prove`, on the prover that is wired.
  unfoldable pub enqueue :
      ProveRequest Value → ServerState → Result WalletRpcError String × ServerState
  enqueue req st = elim st.prover [
    | none ↦ (err (not_implemented "on-device proving is not available on this service"), st)
    | some p ↦
        let (id, q) = enqueue_prove e.job_id_of e.prove e.proof_written e.prove_clock req p in
        (ok id, record st { prover = some q })
  ]

  unfoldable pub sign_and_submit :
      ChainId
      → AccountRef
      → List Call
      → Felt
      → FeeBounds
      → Bool
      → List Felt
      → Option String
      → Action Value
  sign_and_submit chain account calls nonce bounds submit proof_facts proof = do
    let f = e.host.formats
    let params_v3 = params_of nonce bounds proof_facts
    tx ← signs_invoke e account calls chain params_v3
    sender ← asks (λ _. stored_address e.host account)
    if submit
        then (do
          rpc ← asks (node_or_err chain)
          hash ← sends (broadcast account) (λ _.
              from_node
                (rpc.add_invoke sender tx.calldata tx.signature nonce bounds proof_facts proof))
          done (
              object_of
                (("transaction_hash", text (felt_hex f hash)) ∷ ("submitted", bool true) ∷ [])))
        else done (
            object_of (
              ("transaction_hash", text (felt_hex f tx.transaction_hash))
              ∷ ("signature", hexes f tx.signature)
              ∷ (
                "signed_transaction",
                invoke_v3_tx_json f sender tx.calldata tx.signature nonce bounds proof_facts proof,
              )
              ∷ ("submitted", bool false)
              ∷ []))

  abbrev invoke_summary : InvokePlan → String
  invoke_summary p =
      (if p.submit then "Submit " else "Sign ")
      <> e.host.formats.decimal (length p.calls)
      <> " call(s)"
      <> kind_of p.proof_facts
      <> " from "
      <> p.account.address
      <> " on "
      <> chain_name p.chain
      <> ". "
      <> summarize_calls e.host.formats p.calls
      <> ". Max fee: "
      <> bounds_summary e.host.formats p.bounds

  unfoldable pub handle_add_invoke : PairedClient → Value → Action Value
  handle_add_invoke client params = do
    p ← asks (prepare_invoke e.host client params)
    decision ← gated_approval e client "wallet_addInvokeTransaction" (invoke_summary p)
    unless_rejected decision
    sign_and_submit p.chain p.account p.calls p.nonce p.bounds p.submit p.proof_facts p.proof

  unfoldable pub handle_sign_typed_data : PairedClient → Value → Action Value
  handle_sign_typed_data client params = do
    p ← asks (prepare_typed_data e.host client params)
    decision ←
        gated_approval e client "wallet_signTypedData"
          ("Sign typed data with account " <> p.account.address)
    unless_rejected decision
    sig ← signs_typed_data e p.account p.typed_data_json
    done (hexes e.host.formats (serialize_signature p.account.contract sig))

  abbrev funding_request : PairedClient → FundingPlan → ApprovalRequest
  funding_request client p = record {
    client_label = client_name client;
    method = "companion_requestFunding";
    summary =
        "Agent "
        <> client_name client
        <> " requests a top-up of "
        <> e.host.formats.strk_4 p.amount
        <> " STRK ("
        <> e.host.formats.decimal p.amount
        <> " fri) on "
        <> chain_name p.chain
        <> " from manager #"
        <> e.host.formats.decimal p.manager_index
        <> " "
        <> p.manager.address
        <> " → account "
        <> p.recipient.address;
  }

  -- The fields that funding adds to the answer.
  abbrev annotate : FundingPlan → Value → Value
  annotate p result = insert "token" (text p.token_str) (
      insert "amount" (text (e.host.formats.decimal p.amount))
        (insert "recipient" (text p.recipient.address) result))

  unfoldable pub handle_request_funding : PairedClient → Value → Action Value
  handle_request_funding client params = do
    p ← asks (prepare_funding e.host client params)
    decision ← prompt e (funding_request client p)
    unless_rejected decision
    result ← sign_and_submit p.chain p.manager p.calls p.nonce p.bounds p.submit [] none
    done (annotate p result)

  abbrev virtual_summary : InvokePlan → String
  virtual_summary p =
      "Sign + locally prove "
      <> e.host.formats.decimal (length p.calls)
      <> " virtual call(s) from "
      <> p.account.address
      <> " on "
      <> chain_name p.chain
      <> " (SNIP-36; the signed tx is proven on-device, never broadcast). "
      <> summarize_calls e.host.formats p.calls
      <> ". Max fee: "
      <> bounds_summary e.host.formats p.bounds

  -- The reference block is passed on if it is a u64.
  abbrev prove_payload : Value → Value → Value
  prove_payload params tx = elim (get params "block_number") [
    | none ↦ object_of (("transaction", tx) ∷ [])
    | some v ↦ elim (as_u64 v) [
      | none ↦ object_of (("transaction", tx) ∷ [])
      | some n ↦ insert "block_number" (number n) (object_of (("transaction", tx) ∷ []))
    ]
  ]

  unfoldable pub handle_sign_and_prove : PairedClient → Value → Action Value
  handle_sign_and_prove client params = do
    let f = e.host.formats
    p ← asks (λ st. elim (prover_or_err st) [
      | err x ↦ err x
      | ok _ ↦ prepare_virtual e.host client params st
    ])
    decision ← gated_approval e client "companion_signAndProve" (virtual_summary p)
    unless_rejected decision
    let params_v3 = params_of p.nonce p.bounds []
    tx ← signs_invoke e p.account p.calls p.chain params_v3
    let tx_json = invoke_v3_tx_json f p.sender tx.calldata tx.signature p.nonce p.bounds [] none
    job_id ← steps (
        enqueue (record {
          payload = prove_payload params tx_json;
          label = opt_param_str params "label";
          network = prover_network p.chain;
        }))
    done (
        object_of (
          ("job_id", text job_id)
          ∷ ("status", text "queued")
          ∷ ("transaction_hash", text (felt_hex f tx.transaction_hash))
          ∷ (
            "next",
            text
                "poll companion_proveStatus { job_id }; on success take result.proof / result.proof_facts / result.l2_to_l1_messages, build the verifier invoke from the message, and broadcast it via wallet_addInvokeTransaction { proof_facts, proof, submit:true }",
          )
          ∷ []))
