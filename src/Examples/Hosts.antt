-- ===== src/Examples/Hosts.antt =====
-- A small host, state and request for the examples: keys are sums of indices, a vault keeps its text
-- in the clear, and every prompt is approved.
use strkd.Prelude.{ℕ, ◌+◌, ◌*◌, String, true, false, none, some, List, [], ◌∷◌}
use strkd.Prelude.Formats.{Formats}
use strkd.Prelude.Json.{Value, null, text, number, object_of}
use strkd.Prelude.Result.{ok, err}
use strkd.Examples.Planning.{toy}
use strkd.WalletCore.Accounts.{AccountRef, Registry}
use strkd.WalletCore.Contract.{Krusty, OpenZeppelin, sepolia, open_zeppelin}
use strkd.WalletCore.Domain.{agent}
use strkd.WalletRpc.Approval.{approve}
use strkd.WalletRpc.Auth.{ClientKind, PairedClient}
use strkd.WalletRpc.Dispatch.PrepareDeclare.{SierraClass}
use strkd.WalletRpc.Dispatch.Respond.{Strk20}
use strkd.WalletRpc.Error.{Request, forbidden}
use strkd.WalletRpc.Handler.{Env, World}
use strkd.WalletRpc.Session.{Host, VaultContents, Unlocked, WalletSession}
use strkd.WalletRpc.State.{ServerState}

abbrev oz : OpenZeppelin
oz = record {
  class_hash = 7;
  build_constructor_calldata = λ key. key ∷ [];
  deployment_descriptor = λ key salt.
      some (record { address = key; class_hash = 7; salt = 0; constructor_calldata = key ∷ [] });
}

abbrev pub krusty : Krusty
krusty = record {
  latest = λ chain. some oz;
  as_felt = λ chain. 11;
  from_felt = λ x. some sepolia;
  derive_private_key_with_coin_type =
      λ mnemonic address account coin passphrase. some (address + account + 1);
  stark_public_key = λ sk. some (sk * 2);
  sign_stark_hash = λ sk hash. some (record { public_key = sk * 2; r = sk; s = hash });
  compute_typed_data_message_hash = λ json address. some address;
  derive_scoped_strk20_viewing_key = λ sk chain pool. some sk;
  compute_invoke_v3_hash_with_proof_facts =
      λ sender calldata chain nonce deployment tip a b c paymaster x y facts. sender + nonce;
  compute_deploy_account_v3_hash =
      λ address class calldata salt chain nonce tip a b c paymaster x y. address;
  compute_declare_v3_hash =
      λ sender class compiled chain nonce tip a b c paymaster x y deployment. class;
}

abbrev pub formats : Formats
formats = record {
  lower_hex = λ n. "2";
  lower_hex_64 = λ n. "02";
  decimal = λ n. "2";
  strk_4 = λ n. "0.0000";
  from_hex = λ s. some 2;
  parse_u128 = λ s. some 2;
  u128_from_hex = λ s. some 2;
  bytes = λ s. [];
  from_ascii = λ s. "";
  trim = λ s. s;
  to_json = λ v. some "json";
}

-- A host whose vault files hold these contents.
abbrev pub host : VaultContents → Host
host contents = record {
  external = toy;
  krusty = krusty;
  formats = formats;
  vault = record {
    argon2id = λ passphrase params. some (1 ∷ []);
    encrypt = λ key nonce plaintext. some plaintext;
    decrypt = λ key nonce ciphertext. some ciphertext;
  };
  to_vec = λ c. some (5 ∷ []);
  from_slice = λ bytes. some contents;
}

abbrev pub bot : PairedClient
bot = record {
  id = "client-1";
  label = "bot";
  kind = ClientKind.agent;
  granted_until = none;
  token_hash = "t";
}

abbrev pub bot_account : AccountRef
bot_account = record {
  domain = agent;
  index = 0;
  address = "0x02";
  label = "mine";
  contract = open_zeppelin;
  owner_client_id = some "client-1";
}

abbrev pub contents : VaultContents
contents = record { mnemonic = "seed"; registry = bot_account ∷ [] }

abbrev pub unlocked : Registry → Unlocked
unlocked accounts = record { mnemonic = "seed"; vault_passphrase = "pass"; registry = accounts }

abbrev pub session : Registry → WalletSession
session accounts = record { chain = sepolia; unlocked = some (unlocked accounts) }

abbrev pub twelve : List ℕ
twelve = 1 ∷ 2 ∷ 3 ∷ 4 ∷ 5 ∷ 6 ∷ 7 ∷ 8 ∷ 9 ∷ 10 ∷ 11 ∷ 12 ∷ []

abbrev pub env : Env
env = record {
  host = host contents;
  approver = λ req. approve;
  meanwhile = λ st. st;
  now = 1000;
  new_id = "client-2";
  new_token = "u";
  hash_token = λ t. t;
  clients_written = true;
  draws = record { salt = some []; nonce = some twelve };
  vault_written = true;
  prove = λ req. ok null;
  job_id_of = λ n. "p1";
  prove_clock = record { created = 1; started = 2; elapsed = 3 };
  proof_written = true;
}

abbrev pub state : Registry → ServerState
state accounts = record {
  session = session accounts;
  clients = record { clients = bot ∷ []; file = none };
  log = record { rows = []; full_payloads = false };
  vault_store = some none;
  nodes = [];
  watched_assets = [];
  last_activity_ms = 0;
  issue_repo = "a/b";
  prover = none;
  api_version = "0.1.0";
  spec_versions = [];
}

abbrev pub world : World
world = record { state = state (bot_account ∷ []); events = [] }

abbrev pub classes : SierraClass
classes = record { from_json = λ v. ok v; class_hash = λ v. 3 }

abbrev pub pool : Strk20
pool = record {
  balances = λ client params w. (err forbidden, w);
  prepare_invoke = λ client params w. (err forbidden, w);
  invoke_transaction = λ client params w. (err forbidden, w);
  register = λ client params w. (err forbidden, w);
}

-- Signing a text with the bot's account.
abbrev pub sign_params : Value
sign_params =
    object_of
      (("account_address", text "0x2") ∷ ("typed_data", text "hello") ∷ ("days", number 400) ∷ [])

abbrev pub request : String → Request
request method = record { method = method; params = sign_params; id = number 1 }
