-- ===== src/WalletRpc/State.antt =====
-- The state behind the service (crates/wallet-rpc/src/dispatch.rs): `ServerState` and its methods.
use strkd.Prelude.{
  ℕ, String, Bool, true, false, not, ◌&&◌, ◌||◌, Option, none, some, List, [], ◌∷◌, ◌++◌, leb, ◌==◌,
  if◌then◌else◌, keep, find,
}
use strkd.Prelude.Json.{Value}
use strkd.Felt.{as_bytes}
use strkd.WalletCore.Contract.{ChainId, mainnet, sepolia}
use strkd.WalletCore.Vault.{EncryptedVault}
use strkd.WalletRpc.Auth.{ClientStore}
use strkd.WalletRpc.Auth
use strkd.WalletRpc.Log.{RequestLog, in_memory}
use strkd.WalletRpc.Node.{StarknetRpc}
use strkd.WalletRpc.Session.{WalletSession}
use strkd.Prover.Enqueue.{ProverState}

-- `vault_store` is what the vault file holds, if a store is configured. The approver is not part
-- of the record, since it never changes.
pub record ServerState : Type 0 where
  pub session : WalletSession
  pub clients : ClientStore
  pub log : RequestLog
  pub vault_store : Option (Option EncryptedVault)
  pub nodes : List (ChainId × StarknetRpc)
  pub watched_assets : List Value
  pub last_activity_ms : ℕ
  pub issue_repo : String
  pub prover : Option (ProverState Value)
  pub api_version : String
  pub spec_versions : List String

abbrev pub default_issue_repo : String
default_issue_repo = "starknet-innovation/strkd"

unfoldable pub with_log : ℕ → WalletSession → RequestLog → ServerState
with_log now session log = record {
  session = session;
  clients = Auth.new;
  log = log;
  vault_store = none;
  nodes = [];
  watched_assets = [];
  last_activity_ms = now;
  issue_repo = default_issue_repo;
  prover = none;
  api_version = "0.1.0";
  spec_versions = "0.10.2" ∷ [];
}

unfoldable pub new : ℕ → WalletSession → ServerState
new now session = with_log now session (in_memory true)

abbrev between : ℕ → ℕ → ℕ → Bool
between lo hi b = leb lo b && leb b hi

-- `u8::is_ascii_alphanumeric`
abbrev pub is_ascii_alphanumeric : ℕ → Bool
is_ascii_alphanumeric b = between 48 57 b || between 65 90 b || between 97 122 b

abbrev pub all : (ℕ → Bool) → List ℕ → Bool
all p [] = true
all p (b ∷ bs) = let rest = all p bs in p b && rest

-- `str::split('/')`, on the bytes
abbrev pub split_slash : List ℕ → List ℕ → List (List ℕ)
split_slash part [] = part ∷ []
split_slash part (b ∷ bs) =
    let next = split_slash [] bs in
    let same = split_slash (part ++ (b ∷ [])) bs in if b == 47 then part ∷ next else same

abbrev is_empty : List ℕ → Bool
is_empty [] = true
is_empty (_ ∷ _) = false

abbrev slug_parts : Bool → List (List ℕ) → Bool
slug_parts legal (owner ∷ name ∷ []) = not (is_empty owner) && not (is_empty name) && legal
slug_parts legal _ = false

unfoldable pub is_valid_repo_slug : String → Bool
is_valid_repo_slug s =
    slug_parts
      (all (λ b. is_ascii_alphanumeric b || b == 45 || b == 95 || b == 46 || b == 47) (as_bytes s))
      (split_slash [] (as_bytes s))

unfoldable pub with_issue_repo : String → ServerState → ServerState
with_issue_repo repo st = if is_valid_repo_slug repo then record st { issue_repo = repo } else st

unfoldable pub with_vault_store : Option EncryptedVault → ServerState → ServerState
with_vault_store file st = record st { vault_store = some file }

unfoldable pub with_clients_path : Option (List Auth.PairedClient) → ServerState → ServerState
with_clients_path read st = record st { clients = Auth.open_file read }

unfoldable pub with_prover : ProverState Value → ServerState → ServerState
with_prover p st = record st { prover = some p }

abbrev pub chain_eq : ChainId → ChainId → Bool
chain_eq mainnet mainnet = true
chain_eq sepolia sepolia = true
chain_eq _ _ = false

-- `HashMap::{insert, remove}`
unfoldable pub set_node : ChainId → Option StarknetRpc → ServerState → ServerState
set_node chain node st =
    let others = keep (λ n. not (chain_eq n.0 chain)) st.nodes in
    elim node [
      | none ↦ record st { nodes = others }
      | some n ↦ record st { nodes = (chain, n) ∷ others }
    ]

unfoldable pub node_for : ChainId → ServerState → Option StarknetRpc
node_for chain st = elim (find (λ n. chain_eq n.0 chain) st.nodes) [
  | none ↦ none
  | some n ↦ some n.1
]

unfoldable pub with_node : ChainId → StarknetRpc → ServerState → ServerState
unfolding set_node
with_node chain node st = set_node chain (some node) st

unfoldable pub touch_activity : ℕ → ServerState → ServerState
touch_activity now st = record st { last_activity_ms = now }

unfoldable pub add_watched_asset : Value → ServerState → ServerState
add_watched_asset asset st = record st { watched_assets = st.watched_assets ++ (asset ∷ []) }
