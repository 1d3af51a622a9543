-- ===== src/WalletRpc/Dispatch/Prepare.antt =====
-- What the handlers of invokes work out before they ask for approval
-- (crates/wallet-rpc/src/dispatch.rs).
use strkd.Prelude.{
  String, Bool, true, false, ◌&&◌, Option, none, some, List, [], ◌∷◌, if◌then◌else◌,
}
use strkd.Prelude.Json.{Value, text, object_of, get}
use strkd.Prelude.Formats.{felt_hex, address_hex}
use strkd.Prelude.Result.{Result, ok, err, ◌>>=◌, ◌>>◌, ok_or}
use strkd.Felt.{Felt}
use strkd.WalletCore.Contract.{ChainId}
use strkd.WalletCore.Accounts.{AccountRef}
use strkd.WalletCore.Keys.{typed_data_message_hash}
use strkd.WalletCore.Tx.{Call, encode_calls}
use strkd.WalletRpc.Auth.{PairedClient}
use strkd.WalletRpc.Dispatch.Params.{
  param_str, is_set, normalize_address, parse_calls, opt_fee_bounds, opt_nonce,
}
use strkd.WalletRpc.Dispatch.Resolve.{
  scoped_account, first_scoped, from_node, node_or_err, resolve_chain, resolve_nonce, resolve_exec,
  parse_proof_facts, parse_proof,
}
use strkd.WalletRpc.Error.{WalletRpcError, invalid_request, deployment_data_not_available}
use strkd.WalletRpc.Node.{FeeBounds, hexes, bounds_json}
use strkd.WalletRpc.Session.{Host, core}
use strkd.WalletRpc.Session.Signing.{stored_address, deployment_data_for}
use strkd.WalletRpc.State.{ServerState}

-- What is fixed when the user is asked.
pub record InvokePlan : Type 0 where
  pub account : AccountRef
  pub sender : Felt
  pub chain : ChainId
  pub calls : List Call
  pub nonce : Felt
  pub bounds : FeeBounds
  pub submit : Bool
  pub proof_facts : List Felt
  pub proof : Option String

pub record TypedDataPlan : Type 0 where
  pub account : AccountRef
  pub typed_data_json : String

-- `(!proof_facts.is_empty()).then_some(...)`
abbrev proof_carrying : List Felt → Option String → Option (List Felt × Option String)
proof_carrying [] proof = none
proof_carrying (x ∷ xs) proof = some (x ∷ xs, proof)

abbrev lacks_proof : Option (List Felt × Option String) → Bool
lacks_proof (some (_, none)) = true
lacks_proof _ = false

module _ (h : Host) where
  -- `handle_add_invoke`
  unfoldable pub prepare_invoke :
      PairedClient → Value → ServerState → Result WalletRpcError InvokePlan
  prepare_invoke client params st = do
    let submit = is_set params "submit"
    account_address ← param_str params "account_address"
    want ← normalize_address h.formats account_address
    calls ← parse_calls h.formats h.external params
    proof_facts ← parse_proof_facts h params
    proof ← parse_proof params
    if submit && lacks_proof (proof_carrying proof_facts proof)
        then err
            (invalid_request "broadcasting a proof-carrying invoke (proof_facts) requires 'proof'")
        else ok tt
    account ← scoped_account client want st
    sender ← stored_address h account
    chain ← resolve_chain h params st
    exec ←
        resolve_exec h chain sender (encode_calls calls) params (proof_carrying proof_facts proof)
          st
    ok (record {
      account = account;
      sender = sender;
      chain = chain;
      calls = calls;
      nonce = exec.0;
      bounds = exec.1;
      submit = submit;
      proof_facts = proof_facts;
      proof = proof;
    })

  -- `handle_sign_and_prove`, once the prover is there
  unfoldable pub prepare_virtual :
      PairedClient → Value → ServerState → Result WalletRpcError InvokePlan
  prepare_virtual client params st = do
    account_address ← param_str params "account_address"
    want ← normalize_address h.formats account_address
    calls ← parse_calls h.formats h.external params
    chain ← resolve_chain h params st
    account ← scoped_account client want st
    sender ← stored_address h account
    nonce ← resolve_nonce h chain sender params st
    given ← opt_fee_bounds h.formats params
    bounds ←
        ok_or
          (invalid_request
            "companion_signAndProve requires explicit resource_bounds: the virtual tx carries private calldata, so it must NOT be fee-estimated online (that would send the private inputs to the RPC node). Set resource_bounds manually (~2× current gas prices).")
          given
    ok (record {
      account = account;
      sender = sender;
      chain = chain;
      calls = calls;
      nonce = nonce;
      bounds = bounds;
      submit = false;
      proof_facts = [];
      proof = none;
    })

  -- `typed_data`, a text or any other value as JSON
  abbrev typed_data_of : Value → Result WalletRpcError String
  typed_data_of (text s) = ok s
  typed_data_of other =
      ok_or (invalid_request "typed_data not serializable") (h.formats.to_json other)

  -- `handle_sign_typed_data`
  unfoldable pub prepare_typed_data :
      PairedClient → Value → ServerState → Result WalletRpcError TypedDataPlan
  prepare_typed_data client params st = do
    account_address ← param_str params "account_address"
    want ← normalize_address h.formats account_address
    td_value ← ok_or (invalid_request "missing 'typed_data'") (get params "typed_data")
    typed_data_json ← typed_data_of td_value
    account ← scoped_account client want st
    ok (record { account = account; typed_data_json = typed_data_json })

  unfoldable pub handle_typed_data_hash : Value → Result WalletRpcError Value
  handle_typed_data_hash params = do
    account_address ← param_str params "account_address"
    account ←
        ok_or (invalid_request "invalid 'account_address'") (h.formats.from_hex account_address)
    td_value ← ok_or (invalid_request "missing 'typed_data'") (get params "typed_data")
    typed_data_json ← typed_data_of td_value
    hash ← core h (typed_data_message_hash h.krusty typed_data_json account)
    ok (object_of (("hash", text (felt_hex h.formats hash)) ∷ ("revision", text "1") ∷ []))

  unfoldable pub handle_deployment_data : PairedClient → ServerState → Result WalletRpcError Value
  handle_deployment_data client st = do
    found ← first_scoped client st
    account ← ok_or deployment_data_not_available found
    deployed ← deployment_data_for h account st.session
    ok (
        object_of (
          ("address", text (address_hex h.formats deployed.address))
          ∷ ("class_hash", text (felt_hex h.formats deployed.class_hash))
          ∷ ("salt", text (felt_hex h.formats deployed.salt))
          ∷ ("constructor_calldata", hexes h.formats deployed.constructor_calldata)
          ∷ []))

  unfoldable pub handle_estimate_fee :
      PairedClient → Value → ServerState → Result WalletRpcError Value
  handle_estimate_fee client params st = do
    account_address ← param_str params "account_address"
    want ← normalize_address h.formats account_address
    calls ← parse_calls h.formats h.external params
    account ← scoped_account client want st
    sender ← stored_address h account
    chain ← resolve_chain h params st
    rpc ← node_or_err chain st
    given ← opt_nonce h.formats params
    nonce ← elim given [ some n ↦ ok n | none ↦ from_node (rpc.get_nonce sender) ]
    bounds ← from_node (rpc.estimate_invoke sender (encode_calls calls) nonce)
    ok (
        object_of (
          ("nonce", text (felt_hex h.formats nonce))
          ∷ ("resource_bounds", bounds_json h.formats bounds)
          ∷ []))
