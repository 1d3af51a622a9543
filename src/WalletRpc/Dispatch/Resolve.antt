-- ===== src/WalletRpc/Dispatch/Resolve.antt =====
-- What a handler resolves before it asks for approval (crates/wallet-rpc/src/dispatch.rs): the
-- account within the caller's scope, the chain, the nonce and the fee bounds, the proof.
use strkd.Prelude.{
  ℕ, suc, String, Bool, not, ◌||◌, Option, none, some, List, [], ◌∷◌, ltb, ◌==◌, if◌then◌else◌,
  find,
}
use Prim.Native.Char.{code}
use strkd.Prelude.Text.{text_eq}
use strkd.Prelude.Json.{Value, null, text, array, elements_of, get}
use strkd.Prelude.Result.{Result, ok, err, ◌>>=◌, ok_or, map_err}
use strkd.Felt.{Felt, as_bytes}
use strkd.WalletCore.Contract.{ChainId}
use strkd.WalletCore.Accounts.{AccountRef, scoped_for}
use strkd.WalletRpc.Auth.{PairedClient}
use strkd.WalletRpc.Dispatch.Params.{
  scope_for, opt_param_str, normalize_address, felts_from, opt_nonce, opt_fee_bounds,
}
use strkd.WalletRpc.Error.{
  WalletRpcError, invalid_request, forbidden, no_node, node, chain_id_not_supported,
}
use strkd.WalletRpc.Node.{StarknetRpc, NodeError, FeeBounds, node_message}
use strkd.WalletRpc.Session.{Host, registry}
use strkd.WalletRpc.State.{ServerState, node_for, is_ascii_alphanumeric, all}

-- `reg.scoped_for(scope).find(|a| a.address == want)`
unfoldable pub find_scoped :
    PairedClient → String → ServerState → Result WalletRpcError (Option AccountRef)
find_scoped client want st = do
  reg ← registry st.session
  ok (find (λ a. text_eq a.address want) (scoped_for (scope_for client) reg))

-- `reg.scoped_for(scope).next()`
unfoldable pub first_scoped : PairedClient → ServerState → Result WalletRpcError (Option AccountRef)
first_scoped client st = do
  reg ← registry st.session
  ok (elim (scoped_for (scope_for client) reg) [ [] ↦ none | a ∷ _ ↦ some a ])

-- The account that a request names, within the caller's scope.
unfoldable pub scoped_account :
    PairedClient → String → ServerState → Result WalletRpcError AccountRef
scoped_account client want st = find_scoped client want st >>= λ found. ok_or forbidden found

abbrev pub from_node {ℓ} : {A : Type ℓ} → Result NodeError A → Result WalletRpcError A
from_node m = map_err (λ e. node (node_message e)) m

abbrev pub node_or_err : ChainId → ServerState → Result WalletRpcError StarknetRpc
node_or_err chain st = ok_or no_node (node_for chain st)

module _ (h : Host) where
  -- An account named by the request, or the caller's first one.
  unfoldable pub named_or_first :
      PairedClient → Option String → ServerState → Result WalletRpcError (Option AccountRef)
  named_or_first client none st = first_scoped client st
  named_or_first client (some s) st = do
    reg ← registry st.session
    want ← normalize_address h.formats s
    find_scoped client want st

  unfoldable pub resolve_chain : Value → ServerState → Result WalletRpcError ChainId
  resolve_chain params st = elim (get params "chainId") [
    | none ↦ ok st.session.chain
    | some null ↦ ok st.session.chain
    | some (text s) ↦ do
      x ←
          ok_or
            (invalid_request
              "invalid chainId (expected a felt-encoded chain id, e.g. SN_SEPOLIA / SN_MAIN)")
            (h.formats.from_hex s)
      ok_or chain_id_not_supported (h.krusty.from_felt x)
    | some _ ↦ err (invalid_request "chainId must be a felt-encoded string")
  ]

  -- The caller's nonce, or the node's.
  unfoldable pub resolve_nonce : ChainId → Felt → Value → ServerState → Result WalletRpcError Felt
  resolve_nonce chain sender params st = do
    given ← opt_nonce h.formats params
    elim given [
      | some n ↦ ok n
      | none ↦ do rpc ← node_or_err chain st; from_node (rpc.get_nonce sender)
    ]

  -- An estimate for an invoke; the proof facts and the proof of a proof-carrying one.
  abbrev estimate :
      ChainId
      → Felt
      → List Felt
      → Felt
      → Option (List Felt × Option String)
      → ServerState
      → Result WalletRpcError FeeBounds
  estimate chain sender calldata nonce (some (facts, some proof)) st = do
    rpc ← node_or_err chain st
    from_node (rpc.estimate_invoke_with_proof sender calldata nonce facts proof)
  estimate chain sender calldata nonce (some (facts, none)) st = err (
      invalid_request
        "proof-carrying invoke (proof_facts) without 'proof' needs explicit resource_bounds: the fee can only be estimated with the proof attached. Pass 'proof', or set resource_bounds manually (e.g. ~2× current gas prices).")
  estimate chain sender calldata nonce none st = do
    rpc ← node_or_err chain st
    from_node (rpc.estimate_invoke sender calldata nonce)

  unfoldable pub resolve_exec :
      ChainId
      → Felt
      → List Felt
      → Value
      → Option (List Felt × Option String)
      → ServerState
      → Result WalletRpcError (Felt × FeeBounds)
  resolve_exec chain sender calldata params proof_carrying st = do
    nonce ← resolve_nonce chain sender params st
    given ← opt_fee_bounds h.formats params
    bounds ← elim given [
      | some b ↦ ok b
      | none ↦ estimate chain sender calldata nonce proof_carrying st
    ]
    ok (nonce, bounds)

  -- `params.get("proof_facts")`
  unfoldable pub parse_proof_facts : Value → Result WalletRpcError (List Felt)
  parse_proof_facts params = elim (get params "proof_facts") [
    | none ↦ ok []
    | some null ↦ ok []
    | some (array vs) ↦ felts_from h.formats (elements_of vs) "proof_facts element"
    | some _ ↦ err (invalid_request "proof_facts must be an array")
  ]

-- `char::is_ascii_whitespace`
abbrev is_ascii_whitespace : ℕ → Bool
is_ascii_whitespace c = c == 32 || c == 9 || c == 10 || c == 12 || c == 13

unfoldable pub strip_whitespace : String → String
strip_whitespace String.[] = String.[]
strip_whitespace (String.◌∷◌ c s) =
    let rest = strip_whitespace s in
    if is_ascii_whitespace (code c) then rest else String.◌∷◌ c rest

-- A byte put before `pad` times `=` that follow `body`.
abbrev pad_front : ℕ → ℕ → List ℕ → ℕ × List ℕ
pad_front b pad [] = if b == 61 then (suc pad, []) else (pad, b ∷ [])
pad_front b pad (c ∷ body) = (pad, b ∷ c ∷ body)

-- The trailing `=`, and what stands before them.
unfoldable pub split_padding : List ℕ → ℕ × List ℕ
split_padding [] = (0, [])
split_padding (b ∷ bs) = let (pad, body) = split_padding bs in pad_front b pad body

abbrev is_base64 : ℕ → Bool
is_base64 b = is_ascii_alphanumeric b || b == 43 || b == 47

unfoldable pub normalize_proof_b64 : String → Result WalletRpcError String
normalize_proof_b64 raw =
    let cleaned = strip_whitespace raw in
    let (pad, body) = split_padding (as_bytes cleaned) in
    elim body [
      | [] ↦ err (invalid_request "proof is empty or all padding after trimming whitespace")
      | b ∷ bs ↦
          if ltb 2 pad || not (all is_base64 (b ∷ bs))
          then err (
              invalid_request
                "proof is not valid standard base64 (expected A-Za-z0-9+/ with optional trailing '='; check for url-safe '-'/'_', embedded '=' padding, or stray characters)")
          else ok cleaned
    ]

-- `params.get("proof").and_then(|v| v.as_str())`, normalized
unfoldable pub parse_proof : Value → Result WalletRpcError (Option String)
parse_proof params = elim (opt_param_str params "proof") [
  | none ↦ ok none
  | some s ↦ normalize_proof_b64 s >>= λ p. ok (some p)
]
