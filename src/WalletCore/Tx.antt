-- ===== src/WalletCore/Tx.antt =====
-- Selectors and the multicall encoding (crates/wallet-core/src/tx.rs).
pub mod Decode
use strkd.Prelude.{ℕ, ◌%◌, ◌^◌, String, Bool, true, List, [], ◌∷◌, ◌++◌, length}
use strkd.Felt.{Felt, External, as_bytes}

pub record Call : Type 0 where
  pub to : Felt
  pub selector : Felt
  pub calldata : List Felt

module _ (x : External) where
  -- The digest with its top six bits cleared.
  unfoldable pub starknet_keccak : List ℕ → Felt
  starknet_keccak bytes = x.keccak256 bytes % 2 ^ 250

  unfoldable pub get_selector_from_name : String → Felt
  unfolding starknet_keccak
  get_selector_from_name name = starknet_keccak (as_bytes name)

unfoldable pub encode_each : List Call → List Felt → List Felt
encode_each [] out = out
encode_each (call ∷ rest) out =
    encode_each rest (out ++ (call.to ∷ call.selector ∷ length call.calldata ∷ call.calldata))

-- `[ n_calls, (to, selector, calldata_len, calldata...)* ]`
unfoldable pub encode_calls : List Call → List Felt
unfolding encode_each
encode_calls calls = encode_each calls (length calls ∷ [])

pub record ResourceBounds : Type 0 where
  pub max_amount : ℕ
  pub max_price_per_unit : ℕ

pub record InvokeV3Params : Type 0 where
  pub nonce : Felt
  pub tip : ℕ
  pub l1_gas : ResourceBounds
  pub l2_gas : ResourceBounds
  pub l1_data_gas : ResourceBounds
  pub paymaster_data : List Felt
  pub account_deployment_data : List Felt
  pub proof_facts : List Felt

abbrev pub no_bounds : ResourceBounds
no_bounds = record { max_amount = 0; max_price_per_unit = 0 }

-- `InvokeV3Params::default`
abbrev pub default_params : InvokeV3Params
default_params = record {
  nonce = 0;
  tip = 0;
  l1_gas = no_bounds;
  l2_gas = no_bounds;
  l1_data_gas = no_bounds;
  paymaster_data = [];
  account_deployment_data = [];
  proof_facts = [];
}

-- `compute_invoke_v3_hash_with_proof_facts`: sender, calldata, chain, nonce, account deployment
-- data, tip, the three bounds, paymaster data, whether the two data-availability modes are L1, and
-- the proof facts.
abbrev pub ComputeHash : Type 0
ComputeHash =
    Felt
    → List Felt
    → Felt
    → Felt
    → List Felt
    → ℕ
    → ResourceBounds
    → ResourceBounds
    → ResourceBounds
    → List Felt
    → Bool
    → Bool
    → List Felt
    → Felt

unfoldable pub invoke_v3_hash : ComputeHash → Felt → List Call → Felt → InvokeV3Params → Felt
invoke_v3_hash compute sender calls chain params =
    compute sender (encode_calls calls) chain params.nonce params.account_deployment_data params.tip
      params.l1_gas params.l2_gas params.l1_data_gas params.paymaster_data true true
      params.proof_facts
