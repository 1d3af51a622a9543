-- ===== src/WalletRpc/Dispatch/Deploy.antt =====
-- `wallet_addDeclareTransaction` and `companion_deployAccount` (crates/wallet-rpc/src/dispatch.rs).
use strkd.Prelude.{true, false, [], ◌∷◌, if◌then◌else◌, String}
use strkd.Prelude.Text.{◌<>◌}
use strkd.Prelude.Json.{Value, bool, text, object_of}
use strkd.Prelude.Formats.{felt_hex}
use strkd.Prelude.Result.{ok_or}
use strkd.WalletRpc.Auth.{PairedClient}
use strkd.WalletRpc.Dispatch.Invoke.{params_of}
use strkd.WalletRpc.Dispatch.Params.{chain_name}
use strkd.WalletRpc.Dispatch.PrepareDeclare.{SierraClass, DeclarePlan, prepare_declare}
use strkd.WalletRpc.Dispatch.PrepareFunding.{DeployPlan, prepare_deploy}
use strkd.WalletRpc.Dispatch.Resolve.{from_node, node_or_err}
use strkd.WalletRpc.Dispatch.Summary.{bounds_summary}
use strkd.WalletRpc.Error.{invalid_request}
use strkd.WalletRpc.Handler.{
  Env, broadcast, Action, ◌>>=◌, ◌>>◌, done, asks, sends, gated_approval, unless_rejected,
}
use strkd.WalletRpc.Node.{hexes, declare_v3_tx_json}
use strkd.WalletRpc.Handler.Signing.{signs_declare, signs_deploy_account}

module _ (e : Env) where
  abbrev declare_summary : DeclarePlan → String
  declare_summary p =
      (if p.submit then "Declare" else "Sign declaration of")
      <> " class "
      <> felt_hex e.host.formats p.class_hash
      <> " from "
      <> p.account.address
      <> " on "
      <> chain_name p.chain
      <> ". Max fee: "
      <> bounds_summary e.host.formats p.bounds

  unfoldable pub handle_add_declare : SierraClass → PairedClient → Value → Action Value
  handle_add_declare classes client params = do
    let f = e.host.formats
    p ← asks (prepare_declare e.host classes client params)
    decision ← gated_approval e client "wallet_addDeclareTransaction" (declare_summary p)
    unless_rejected decision
    let params_v3 = params_of p.nonce p.bounds []
    tx ← signs_declare e p.account p.class_hash p.compiled_class_hash p.chain params_v3
    if p.submit
        then (do
          rpc ← asks (node_or_err p.chain)
          cc ← asks (λ _.
              ok_or (invalid_request "submit:true requires 'contract_class'") p.contract_class)
          hash ← sends (broadcast p.account) (λ _.
              from_node
                (rpc.add_declare p.sender p.compiled_class_hash cc tx.signature p.nonce p.bounds))
          done (
              object_of (
                ("transaction_hash", text (felt_hex f hash))
                ∷ ("class_hash", text (felt_hex f p.class_hash))
                ∷ ("submitted", bool true)
                ∷ [])))
        else done (
            object_of (
              ("transaction_hash", text (felt_hex f tx.transaction_hash))
              ∷ ("class_hash", text (felt_hex f p.class_hash))
              ∷ ("signature", hexes f tx.signature)
              ∷ (
                "signed_transaction",
                declare_v3_tx_json f p.sender p.compiled_class_hash p.contract_class tx.signature
                    p.nonce p.bounds,
              )
              ∷ ("submitted", bool false)
              ∷ []))

  abbrev deploy_summary : DeployPlan → String
  deploy_summary p =
      (if p.submit then "Deploy" else "Sign deployment of")
      <> " account "
      <> p.account.address
      <> " on "
      <> chain_name p.chain
      <> ". Max fee: "
      <> bounds_summary e.host.formats p.bounds

  unfoldable pub handle_deploy_account : PairedClient → Value → Action Value
  handle_deploy_account client params = do
    let f = e.host.formats
    p ← asks (prepare_deploy e.host client params)
    decision ← gated_approval e client "companion_deployAccount" (deploy_summary p)
    unless_rejected decision
    let params_v3 = params_of 0 p.bounds []
    tx ← signs_deploy_account e p.account p.chain params_v3
    if p.submit
        then (do
          rpc ← asks (node_or_err p.chain)
          hash ← sends (broadcast p.account) (λ _. from_node (
              rpc.add_deploy_account tx.class_hash tx.constructor_calldata tx.salt tx.signature
                p.bounds))
          done (
              object_of (
                ("transaction_hash", text (felt_hex f hash))
                ∷ ("contract_address", text p.account.address)
                ∷ ("submitted", bool true)
                ∷ [])))
        else done (
            object_of (
              ("transaction_hash", text (felt_hex f tx.transaction_hash))
              ∷ ("contract_address", text p.account.address)
              ∷ ("signature", hexes f tx.signature)
              ∷ (
                "signed_transaction",
                object_of (
                    ("type", text "DEPLOY_ACCOUNT")
                    ∷ ("version", text "0x3")
                    ∷ ("class_hash", text (felt_hex f tx.class_hash))
                    ∷ ("contract_address_salt", text (felt_hex f tx.salt))
                    ∷ ("constructor_calldata", hexes f tx.constructor_calldata)
                    ∷ ("nonce", text "0x0")
                    ∷ []),
              )
              ∷ ("submitted", bool false)
              ∷ []))
