-- ===== src/Strk20/Invocation.antt =====
-- The invoke that a prover runs: the pool calls its own `compile_actions`
-- (crates/strk20/src/invocation.rs).
pub mod Signed
use strkd.Prelude.{ℕ, String, Option, none, some, List, [], ◌∷◌, ◌++◌}
use strkd.Felt.{Felt, External}
use strkd.WalletCore.Tx.{
  Call, ResourceBounds, InvokeV3Params, default_params, ComputeHash, encode_calls,
  get_selector_from_name, invoke_v3_hash,
}
use strkd.Strk20.Actions.{ClientAction, serialize_actions}

abbrev pub l2_gas_max_amount : ℕ
l2_gas_max_amount = 100000000

pub record ProofInvocation : Type 0 where
  pub pool : Felt
  pub chain : Felt
  pub nonce : Felt
  pub calldata : List Felt

abbrev free : ℕ → ResourceBounds
free amount = record { max_amount = amount; max_price_per_unit = 0 }

-- `calldata[1]`, `calldata[2]` and `calldata[4..]`; `none` is the panic out of range.
unfoldable pub inner_call : ProofInvocation → Option Call
inner_call p = elim p.calldata [
  | _ ∷ to ∷ selector ∷ _ ∷ inner ↦ some (record { to = to; selector = selector; calldata = inner })
  | _ ↦ none
]

unfoldable pub params : ProofInvocation → InvokeV3Params
params p = record default_params {
  nonce = p.nonce;
  l1_gas = free 1;
  l2_gas = free l2_gas_max_amount;
  l1_data_gas = free 1;
}

-- The V3 hash of the inner call, encoded again.
unfoldable pub hash : ComputeHash → ProofInvocation → Option Felt
hash compute p = elim (inner_call p) [
  | none ↦ none
  | some call ↦ some (invoke_v3_hash compute p.pool (call ∷ []) p.chain (params p))
]

-- The object that `to_rpc_json` builds, its numbers not yet written in hex. Its key `type` is the
-- field `tx_type`.
pub record BroadcastedInvoke : Type 0 where
  pub tx_type : String
  pub version : ℕ
  pub sender_address : Felt
  pub calldata : List Felt
  pub signature : List Felt
  pub nonce : Felt
  pub l1_gas : ResourceBounds
  pub l2_gas : ResourceBounds
  pub l1_data_gas : ResourceBounds
  pub tip : ℕ
  pub paymaster_data : List Felt
  pub account_deployment_data : List Felt
  pub nonce_data_availability_mode : String
  pub fee_data_availability_mode : String

unfoldable pub to_rpc_json : ProofInvocation → List Felt → BroadcastedInvoke
to_rpc_json p signature = record {
  tx_type = "INVOKE";
  version = 3;
  sender_address = p.pool;
  calldata = p.calldata;
  signature = signature;
  nonce = p.nonce;
  l1_gas = free 1;
  l2_gas = free l2_gas_max_amount;
  l1_data_gas = free 1;
  tip = 0;
  paymaster_data = [];
  account_deployment_data = [];
  nonce_data_availability_mode = "L1";
  fee_data_availability_mode = "L1";
}

module _ (x : External) where
  -- `ProofInvocation::new`
  unfoldable pub new : Felt → Felt → Felt → Felt → Felt → List ClientAction → ProofInvocation
  new pool chain pool_nonce user_addr user_sk actions = record {
    pool = pool;
    chain = chain;
    nonce = pool_nonce;
    calldata = encode_calls (
        record {
          to = pool;
          selector = get_selector_from_name x "compile_actions";
          calldata = (user_addr ∷ user_sk ∷ []) ++ serialize_actions actions;
        }
        ∷ []);
  }
