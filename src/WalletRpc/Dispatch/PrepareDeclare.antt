-- ===== src/WalletRpc/Dispatch/PrepareDeclare.antt =====
-- What `wallet_addDeclareTransaction` works out before it asks (crates/wallet-rpc/src/dispatch.rs).
-- `SierraClass` of crates/wallet-core/src/class_hash.rs is an interface here: the type of a parsed
-- class, its hash and its canonical JSON.
use strkd.Prelude.{Bool, Option, none, some, ◌==◌, if◌then◌else◌}
use strkd.Prelude.Text.{◌<>◌}
use strkd.Prelude.Json.{Value, null, get}
use strkd.Prelude.Formats.{felt_hex}
use strkd.Prelude.Result.{Result, ok, err, ◌>>=◌, ok_or}
use strkd.Felt.{Felt}
use strkd.WalletCore.Contract.{ChainId}
use strkd.WalletCore.Accounts.{AccountRef}
use strkd.WalletCore.Domain.{CoreError}
use strkd.WalletRpc.Auth.{PairedClient}
use strkd.WalletRpc.Dispatch.Params.{
  param_str, is_set, normalize_address, felt_from, opt_fee_bounds,
}
use strkd.WalletRpc.Dispatch.Resolve.{
  scoped_account, from_node, node_or_err, resolve_chain, resolve_nonce,
}
use strkd.WalletRpc.Error.{WalletRpcError, invalid_request}
use strkd.WalletRpc.Node.{FeeBounds}
use strkd.WalletRpc.Session.{Host, core}
use strkd.WalletRpc.Session.Signing.{stored_address}
use strkd.WalletRpc.State.{ServerState}

-- A class is its canonical JSON.
pub record SierraClass : Type 0 where
  pub from_json : Value → Result CoreError Value
  pub class_hash : Value → Felt

pub record DeclarePlan : Type 0 where
  pub account : AccountRef
  pub sender : Felt
  pub chain : ChainId
  pub contract_class : Option Value
  pub class_hash : Felt
  pub compiled_class_hash : Felt
  pub nonce : Felt
  pub bounds : FeeBounds
  pub submit : Bool

module _ (h : Host) (classes : SierraClass) where
  abbrev pub class_of : Option Value → Result WalletRpcError (Option Value)
  class_of none = ok none
  class_of (some null) = ok none
  class_of (some v) = core h (classes.from_json v) >>= λ cc. ok (some cc)

  abbrev pub given_class_hash : Option Value → Result WalletRpcError (Option Felt)
  given_class_hash none = ok none
  given_class_hash (some null) = ok none
  given_class_hash (some v) = felt_from h.formats v "class_hash" >>= λ x. ok (some x)

  abbrev mismatch : Felt → Felt → WalletRpcError
  mismatch given derived = invalid_request (
      "class_hash "
      <> felt_hex h.formats given
      <> " does not match the supplied contract_class, which hashes to "
      <> felt_hex h.formats derived
      <> ". The node derives the class hash from contract_class and validates the signature against THAT transaction hash, so signing "
      <> felt_hex h.formats given
      <> " would be rejected on-chain as an invalid signature. Check the class (the abi string is hashed byte-for-byte; pass the abi as the JSON array to have it serialised the way the compiler hashes it), or omit class_hash to sign the derived one.")

  -- The hash that is signed: derived from the class where there is one.
  unfoldable pub class_hash_of : Option Value → Option Felt → Result WalletRpcError Felt
  class_hash_of (some cc) (some given) =
      if classes.class_hash cc == given
      then ok (classes.class_hash cc)
      else err (mismatch given (classes.class_hash cc))
  class_hash_of (some cc) none = ok (classes.class_hash cc)
  class_hash_of none (some given) = ok given
  class_hash_of none none =
      err (invalid_request "missing 'class_hash' (or pass 'contract_class' and it is derived)")

  abbrev declare_bounds :
      ChainId
      → Felt
      → Felt
      → Option Value
      → Felt
      → Option FeeBounds
      → ServerState
      → Result WalletRpcError FeeBounds
  declare_bounds chain sender compiled contract_class nonce (some b) st = ok b
  declare_bounds chain sender compiled contract_class nonce none st = do
    rpc ← node_or_err chain st
    cc ←
        ok_or
          (invalid_request
            "to estimate a declare, provide 'contract_class' (or pass resource_bounds)")
          contract_class
    from_node (rpc.estimate_declare sender compiled cc nonce)

  -- `handle_add_declare`
  unfoldable pub prepare_declare :
      PairedClient → Value → ServerState → Result WalletRpcError DeclarePlan
  prepare_declare client params st = do
    let submit = is_set params "submit"
    account_address ← param_str params "account_address"
    want ← normalize_address h.formats account_address
    account ← scoped_account client want st
    sender ← stored_address h account
    contract_class ← class_of (get params "contract_class")
    given ← given_class_hash (get params "class_hash")
    class_hash ← class_hash_of contract_class given
    compiled_value ←
        ok_or (invalid_request "missing 'compiled_class_hash'") (get params "compiled_class_hash")
    compiled_class_hash ← felt_from h.formats compiled_value "compiled_class_hash"
    chain ← resolve_chain h params st
    nonce ← resolve_nonce h chain sender params st
    given_bounds ← opt_fee_bounds h.formats params
    bounds ← declare_bounds chain sender compiled_class_hash contract_class nonce given_bounds st
    ok (record {
      account = account;
      sender = sender;
      chain = chain;
      contract_class = contract_class;
      class_hash = class_hash;
      compiled_class_hash = compiled_class_hash;
      nonce = nonce;
      bounds = bounds;
      submit = submit;
    })
