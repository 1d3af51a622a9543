-- ===== src/WalletRpc/Node.antt =====
-- The seam to a Starknet node (crates/wallet-rpc/src/node.rs): the trait, the transactions in RPC form
-- and the reading of an estimate. The HTTP client is not modelled.
pub mod Margin
use strkd.Prelude.{
  ℕ, ◌-◌, ◌*◌, ◌/◌, ◌%◌, ◌^◌, String, Bool, Option, none, some, List, [], ◌∷◌, map, min,
}
use strkd.Prelude.Text.{◌<>◌}
use strkd.Prelude.Json.{Value, text, array_of, object_of, insert, null, get, as_str}
use strkd.Prelude.Formats.{Formats, felt_hex, address_hex, strip_prefix}
use strkd.Prelude.Result.{Result, ok, ◌>>=◌, ok_or}
use strkd.Felt.{Felt}
use strkd.WalletCore.Tx.{ResourceBounds}

pub record FeeBounds : Type 0 where
  pub l1_gas : ResourceBounds
  pub l2_gas : ResourceBounds
  pub l1_data_gas : ResourceBounds

pub data NodeError : Type 0 where
  transport : String → NodeError
  rpc : String → NodeError
  decode : String → NodeError

-- `Display`
unfoldable pub node_message : NodeError → String
node_message (transport m) = "transport: " <> m
node_message (rpc m) = "rpc: " <> m
node_message (decode m) = "decode: " <> m

-- What a node answers; a broadcast is an answer with a transaction hash.
pub record StarknetRpc : Type 0 where
  pub get_nonce : Felt → Result NodeError Felt
  pub estimate_invoke : Felt → List Felt → Felt → Result NodeError FeeBounds
  -- sender, calldata, signature, nonce, bounds, proof facts, proof
  pub add_invoke :
      Felt
      → List Felt
      → List Felt
      → Felt
      → FeeBounds
      → List Felt
      → Option String
      → Result NodeError Felt
  pub estimate_invoke_with_proof :
      Felt → List Felt → Felt → List Felt → String → Result NodeError FeeBounds
  pub is_deployed : Felt → Result NodeError Bool
  -- address, class hash, constructor calldata, salt
  pub estimate_deploy_account : Felt → Felt → List Felt → Felt → Result NodeError FeeBounds
  -- class hash, constructor calldata, salt, signature, bounds
  pub add_deploy_account : Felt → List Felt → Felt → List Felt → FeeBounds → Result NodeError Felt
  -- sender, compiled class hash, contract class, nonce
  pub estimate_declare : Felt → Felt → Value → Felt → Result NodeError FeeBounds
  -- sender, compiled class hash, contract class, signature, nonce, bounds
  pub add_declare : Felt → Felt → Value → List Felt → Felt → FeeBounds → Result NodeError Felt

module _ (f : Formats) where
  abbrev pub hexes : List Felt → Value
  hexes felts = array_of (map (λ x. text (felt_hex f x)) felts)

  abbrev pub bounds_entry : ResourceBounds → Value
  bounds_entry b = object_of (
      ("max_amount", text (felt_hex f b.max_amount))
      ∷ ("max_price_per_unit", text (felt_hex f b.max_price_per_unit))
      ∷ [])

  unfoldable pub bounds_json : FeeBounds → Value
  bounds_json b = object_of (
      ("l1_gas", bounds_entry b.l1_gas)
      ∷ ("l2_gas", bounds_entry b.l2_gas)
      ∷ ("l1_data_gas", bounds_entry b.l1_data_gas)
      ∷ [])

  -- The facts are added when there are any, and then the proof.
  abbrev with_proof : List Felt → Option String → Value → Value
  with_proof [] proof tx = tx
  with_proof facts none tx = insert "proof_facts" (hexes facts) tx
  with_proof facts (some p) tx = insert "proof" (text p) (insert "proof_facts" (hexes facts) tx)

  unfoldable pub invoke_v3_tx_json :
      Felt → List Felt → List Felt → Felt → FeeBounds → List Felt → Option String → Value
  unfolding bounds_json
  invoke_v3_tx_json sender calldata signature nonce bounds proof_facts proof =
      with_proof proof_facts proof (
        object_of (
          ("type", text "INVOKE")
          ∷ ("version", text "0x3")
          ∷ ("sender_address", text (address_hex f sender))
          ∷ ("calldata", hexes calldata)
          ∷ ("signature", hexes signature)
          ∷ ("nonce", text (felt_hex f nonce))
          ∷ ("resource_bounds", bounds_json bounds)
          ∷ ("tip", text "0x0")
          ∷ ("paymaster_data", array_of [])
          ∷ ("account_deployment_data", array_of [])
          ∷ ("nonce_data_availability_mode", text "L1")
          ∷ ("fee_data_availability_mode", text "L1")
          ∷ []))

-- `with_margin`, at the margin of the HTTP client: `saturating_mul` on `u128`.
unfoldable pub with_margin : ℕ → ℕ
with_margin v = min (v * 150) (2 ^ 128 - 1) / 100

module _ (f : Formats) where
  abbrev with_class : Option Value → Value → Value
  with_class none tx = tx
  with_class (some contract_class) tx = insert "contract_class" contract_class tx

  unfoldable pub declare_v3_tx_json :
      Felt → Felt → Option Value → List Felt → Felt → FeeBounds → Value
  declare_v3_tx_json sender compiled_class_hash contract_class signature nonce bounds =
      with_class contract_class (
        object_of (
          ("type", text "DECLARE")
          ∷ ("version", text "0x3")
          ∷ ("sender_address", text (felt_hex f sender))
          ∷ ("compiled_class_hash", text (felt_hex f compiled_class_hash))
          ∷ ("signature", hexes f signature)
          ∷ ("nonce", text (felt_hex f nonce))
          ∷ ("resource_bounds", bounds_json f bounds)
          ∷ ("tip", text "0x0")
          ∷ ("paymaster_data", array_of [])
          ∷ ("account_deployment_data", array_of [])
          ∷ ("nonce_data_availability_mode", text "L1")
          ∷ ("fee_data_availability_mode", text "L1")
          ∷ []))

  abbrev hex_str : Value → String → Result NodeError String
  hex_str v what = ok_or (decode (what <> ": expected hex string")) (as_str v)

  abbrev without_0x : String → String
  without_0x s = elim (strip_prefix "0x" s) [ none ↦ s | some rest ↦ rest ]

  -- `parse_u128` of the HTTP client
  unfoldable pub node_u128 : Value → String → Result NodeError ℕ
  node_u128 v what = do
    s ← hex_str v what
    ok_or (decode (what <> ": bad u128")) (f.u128_from_hex (without_0x s))

  -- `est[key]`
  abbrev index : Value → String → Value
  index est key = elim (get est key) [ none ↦ null | some v ↦ v ]

  -- One resource of `bounds_from_estimate`; the amount is cut to 64 bits.
  unfoldable pub bound_from_estimate : Value → String → String → Result NodeError ResourceBounds
  bound_from_estimate est amount_key price_key = do
    amount ← node_u128 (index est amount_key) amount_key
    price ← node_u128 (index est price_key) price_key
    ok (record { max_amount = with_margin amount % 2 ^ 64; max_price_per_unit = with_margin price })

  unfoldable pub bounds_from_estimate : Value → Result NodeError FeeBounds
  bounds_from_estimate est = do
    l1_gas ← bound_from_estimate est "l1_gas_consumed" "l1_gas_price"
    l2_gas ← bound_from_estimate est "l2_gas_consumed" "l2_gas_price"
    l1_data_gas ← bound_from_estimate est "l1_data_gas_consumed" "l1_data_gas_price"
    ok (record { l1_gas = l1_gas; l2_gas = l2_gas; l1_data_gas = l1_data_gas })
