-- ===== src/WalletRpc/Dispatch/Params.antt =====
-- Reading the parameters of a request (crates/wallet-rpc/src/dispatch.rs).
use strkd.Prelude.{ℕ, ◌%◌, ◌^◌, String, Bool, false, ◌||◌, Option, none, some, List, [], ◌∷◌}
use strkd.Prelude.Text.{text_eq, ◌<>◌}
use strkd.Prelude.Json.{
  Value, null, number, other_number, text, array, elements_of, get, as_str, as_u64, as_bool,
  as_array, object_of,
}
use strkd.Prelude.Formats.{Formats, strip_prefix, address_hex}
use strkd.Prelude.Result.{Result, ok, err, ◌>>=◌, ok_or, map_err}
use strkd.Felt.{Felt, External}
use strkd.WalletCore.Domain.{Domain, user, agent}
use strkd.WalletCore.Contract.{ChainId, mainnet, sepolia}
use strkd.WalletCore.Accounts.{AccountRef}
use strkd.WalletCore.Sign.{resolve_selector}
use strkd.WalletCore.Tx.{Call, ResourceBounds}
use strkd.WalletRpc.Auth.{ClientKind, PairedClient}
use strkd.WalletRpc.Error.{WalletRpcError, invalid_request}
use strkd.WalletRpc.Node.{FeeBounds}

unfoldable pub chain_name : ChainId → String
chain_name mainnet = "SN_MAIN"
chain_name sepolia = "SN_SEPOLIA"

unfoldable pub opt_param_str : Value → String → Option String
opt_param_str params key = elim (get params key) [ none ↦ none | some v ↦ as_str v ]

unfoldable pub param_str : Value → String → Result WalletRpcError String
param_str params key =
    ok_or (invalid_request ("missing string param '" <> key <> "'")) (opt_param_str params key)

abbrev pub or_default {ℓ} : {A : Type ℓ} → A → Option A → A
or_default a none = a
or_default a (some b) = b

-- `params.get(key).and_then(|v| v.as_bool()) == Some(true)`
abbrev pub is_set : Value → String → Bool
is_set params key = elim (get params key) [ none ↦ false | some v ↦ or_default false (as_bool v) ]

unfoldable pub scope_for : PairedClient → Option String
scope_for client = elim client.kind [ ClientKind.agent ↦ some client.id | ClientKind.app ↦ none ]

abbrev domain_json : Domain → Value
domain_json user = text "user"
domain_json agent = text "agent"

unfoldable pub account_to_json : AccountRef → Value
account_to_json a = object_of (
    ("domain", domain_json a.domain)
    ∷ ("index", number a.index)
    ∷ ("address", text a.address)
    ∷ ("label", text a.label)
    ∷ [])

unfoldable pub is_deferred : String → Bool
is_deferred method =
    text_eq method "wallet_addStarknetChain"
    || text_eq method "wallet_strk20ShadowAccountCommitment"
    || text_eq method "wallet_strk20SubaccountCommitment"

-- The first of these fields that there is.
abbrev first_field : Value → List String → Option Value
first_field v [] = none
first_field v (key ∷ keys) =
    let rest = first_field v keys in elim (get v key) [ none ↦ rest | some found ↦ some found ]

module _ (f : Formats) where
  -- A decimal or 0x-hex u128, trimmed.
  abbrev pub u128_of : String → Option ℕ
  u128_of s = elim (strip_prefix "0x" (f.trim s)) [
    | some h ↦ f.u128_from_hex h
    | none ↦ f.parse_u128 (f.trim s)
  ]

  unfoldable pub parse_u128_str : String → Result WalletRpcError ℕ
  parse_u128_str s = ok_or (invalid_request ("invalid u128 value '" <> f.trim s <> "'")) (u128_of s)

  unfoldable pub parse_u128_field : Value → String → Result WalletRpcError ℕ
  unfolding parse_u128_str
  parse_u128_field params key = elim (get params key) [
    | some (text s) ↦ parse_u128_str s
    | some (number n) ↦ ok_or (invalid_request ("bad " <> key)) (as_u64 (number n))
    | some (other_number _) ↦ err (invalid_request ("bad " <> key))
    | _ ↦ err (invalid_request ("missing '" <> key <> "'"))
  ]

  unfoldable pub felt_from : Value → String → Result WalletRpcError Felt
  felt_from value what = do
    s ← ok_or (invalid_request (what <> " must be a hex string")) (as_str value)
    ok_or (invalid_request ("invalid felt for " <> what)) (f.from_hex s)

  -- `.map(felt_from).collect::<Result<Vec<_>, _>>()`
  unfoldable pub felts_from : List Value → String → Result WalletRpcError (List Felt)
  felts_from [] what = ok []
  felts_from (v ∷ vs) what = felt_from v what >>= λ x. felts_from vs what >>= λ xs. ok (x ∷ xs)

  -- An absent field, or one that is no text or number, is 0.
  unfoldable pub bound_field : Value → String → Result WalletRpcError ℕ
  bound_field v key = elim (get v key) [
    | some (text s) ↦ ok_or (invalid_request ("bad " <> key)) (u128_of s)
    | some (number n) ↦ ok_or (invalid_request ("bad " <> key)) (as_u64 (number n))
    | some (other_number _) ↦ err (invalid_request ("bad " <> key))
    | _ ↦ ok 0
  ]

  -- The amount is cut to 64 bits (`as u64`).
  unfoldable pub parse_resource_bounds : Value → Result WalletRpcError ResourceBounds
  parse_resource_bounds v = do
    max_amount ← bound_field v "max_amount"
    max_price_per_unit ← bound_field v "max_price_per_unit"
    ok (record { max_amount = max_amount % 2 ^ 64; max_price_per_unit = max_price_per_unit })

  unfoldable pub normalize_address : String → Result WalletRpcError String
  normalize_address s = do
    x ← ok_or (invalid_request "invalid account_address") (f.from_hex s)
    ok (address_hex f x)

  unfoldable pub opt_nonce : Value → Result WalletRpcError (Option Felt)
  opt_nonce params = elim (get params "nonce") [
    | none ↦ ok none
    | some null ↦ ok none
    | some v ↦ felt_from v "nonce" >>= λ n. ok (some n)
  ]

  -- One of the three bounds of `opt_fee_bounds`.
  abbrev named_bounds : Value → String → Result WalletRpcError ResourceBounds
  named_bounds rb key = do
    v ← ok_or (invalid_request ("resource_bounds missing '" <> key <> "'")) (get rb key)
    parse_resource_bounds v

  unfoldable pub given_bounds : Value → Result WalletRpcError FeeBounds
  given_bounds rb = do
    l1_gas ← named_bounds rb "l1_gas"
    l2_gas ← named_bounds rb "l2_gas"
    l1_data_gas ← named_bounds rb "l1_data_gas"
    ok (record { l1_gas = l1_gas; l2_gas = l2_gas; l1_data_gas = l1_data_gas })

  unfoldable pub opt_fee_bounds : Value → Result WalletRpcError (Option FeeBounds)
  opt_fee_bounds params = elim (get params "resource_bounds") [
    | none ↦ ok none
    | some null ↦ ok none
    | some rb ↦ given_bounds rb >>= λ b. ok (some b)
  ]

  -- The field `calldata` of a call.
  abbrev calldata_of : Option Value → Result WalletRpcError (List Felt)
  calldata_of none = ok []
  calldata_of (some null) = ok []
  calldata_of (some (array vs)) = felts_from (elements_of vs) "calldata element"
  calldata_of (some _) = err (invalid_request "calldata must be an array")

  unfoldable pub parse_call : External → Value → Result WalletRpcError Call
  parse_call x c = do
    to_val ←
        ok_or (invalid_request "call missing contract_address")
          (first_field c ("contract_address" ∷ "contractAddress" ∷ "to" ∷ []))
    to ← felt_from to_val "contract_address"
    selector_field ←
        ok_or
          (invalid_request
            "call missing entry_point_selector (or entrypoint) — a function name or 0x selector")
          (elim (first_field c
            ("entry_point_selector" ∷ "entrypoint" ∷ "entry_point" ∷ "selector" ∷ [])) [
              | none ↦ none
              | some v ↦ as_str v
            ])
    selector ←
        map_err (λ _. invalid_request "bad entry_point_selector")
          (resolve_selector x f selector_field)
    calldata ← calldata_of (get c "calldata")
    ok (record { to = to; selector = selector; calldata = calldata })

  unfoldable pub parse_each : External → List Value → Result WalletRpcError (List Call)
  parse_each x [] = ok []
  parse_each x (c ∷ cs) = parse_call x c >>= λ call. parse_each x cs >>= λ calls. ok (call ∷ calls)

  unfoldable pub parse_calls : External → Value → Result WalletRpcError (List Call)
  parse_calls x params = do
    arr ←
        ok_or (invalid_request "missing 'calls' array")
          (elim (get params "calls") [ none ↦ none | some v ↦ as_array v ])
    elim arr [ [] ↦ err (invalid_request "'calls' is empty") | c ∷ cs ↦ parse_each x (c ∷ cs) ]
