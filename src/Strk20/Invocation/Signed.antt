-- ===== src/Strk20/Invocation/Signed.antt =====
-- What the user signs, what is broadcast and what the pool reads.
use strkd.Prelude.{
  ◌≡◌, refl, subst, String, Bool, Option, none, some, List, [], ◌∷◌, ◌==◌, ◌&&◌, if◌then◌else◌,
  true, false,
}
use strkd.Prelude.Text.{text_eq}
use mathlib.Core.List.{append-nil}
use strkd.Felt.{Felt, External}
use strkd.WalletCore.Tx.{
  ComputeHash, encode_each, encode_calls, get_selector_from_name, invoke_v3_hash,
}
use strkd.WalletCore.Tx.Decode.{read_calls, read_calls-encode_calls}
use strkd.Strk20.Actions.{ClientAction, serialize_actions}
use strkd.Strk20.Actions.Decode.{read_span, read_span-serialize_actions}
use strkd.Strk20.Invocation.{inner_call, params, hash, BroadcastedInvoke, to_rpc_json, new}

-- Whether a data-availability mode is L1; `none` for a text that names no mode.
abbrev is_l1 : String → Option Bool
is_l1 mode = if text_eq mode "L1" then some true else if text_eq mode "L2" then some false else none

-- How a node hashes a broadcast transaction: as an invoke of version 3, over every field but the
-- signature, with the modes that it names. It has no proof facts. `none` for any other transaction.
abbrev pub hash_of : ComputeHash → Felt → BroadcastedInvoke → Option Felt
hash_of compute chain tx =
    if text_eq tx.tx_type "INVOKE" && (tx.version == 3)
    then elim (is_l1 tx.nonce_data_availability_mode) [
      | none ↦ none
      | some nonce_l1 ↦ elim (is_l1 tx.fee_data_availability_mode) [
        | none ↦ none
        | some fee_l1 ↦ some (
            compute tx.sender_address tx.calldata chain tx.nonce tx.account_deployment_data tx.tip
              tx.l1_gas tx.l2_gas tx.l1_data_gas tx.paymaster_data nonce_l1 fee_l1 [])
      ]
    ]
    else none

-- `hash` of a new invocation does not panic, and it is what a node computes for the transaction that
-- `to_rpc_json` broadcasts, from its type, version, fields and data-availability modes, whatever the
-- signature is.
pub hash-new :
    (x : External) (compute : ComputeHash) (pool chain pool_nonce user_addr user_sk : Felt)
    (actions : List ClientAction) (signature : List Felt)
    → hash compute (new x pool chain pool_nonce user_addr user_sk actions)
      ≡ hash_of compute chain
          (to_rpc_json (new x pool chain pool_nonce user_addr user_sk actions) signature)
unfolding hash new inner_call params to_rpc_json invoke_v3_hash encode_calls encode_each
hash-new x compute pool chain pool_nonce user_addr user_sk actions signature = refl

-- The pool reads the broadcast calldata as one call, to itself, of `compile_actions`; and that
-- call's arguments as the user, the viewing key and the actions, with nothing left over.
pub to_rpc_json-decodes :
    (x : External) (pool chain pool_nonce user_addr user_sk : Felt) (actions : List ClientAction)
    (signature : List Felt)
    → (inner : List Felt) × (read_calls
          (to_rpc_json (new x pool chain pool_nonce user_addr user_sk actions) signature).calldata
        ≡ some (
          record {
            to = pool;
            selector = get_selector_from_name x "compile_actions";
            calldata = user_addr ∷ user_sk ∷ inner;
          }
              ∷ [],
          [],
        ))
      × (read_span inner ≡ some (actions, []))
unfolding new to_rpc_json
to_rpc_json-decodes x pool chain pool_nonce user_addr user_sk actions signature = (
  serialize_actions actions,
  rw (← append-nil (encode_calls _)) (read_calls-encode_calls _ []),
  subst (λ z. read_span z ≡ some (actions, [])) (append-nil _)
      (read_span-serialize_actions actions []),
)
