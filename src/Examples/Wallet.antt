-- ===== src/Examples/Wallet.antt =====
-- The pairing store, the backoff, the registry and the encodings on concrete data.
use strkd.Prelude.{
  All, false, ℕ, ◌+◌, ◌-◌, ◌≤◌, ◌≡◌, ◌≢◌, subst, ◌↔◌, leb, refl, String, true, Option, none, some,
  List, [], ◌∷◌, ◌++◌, arith, ltb, if◌then◌else◌,
}
use strkd.Prelude.Text.{text_eq}
use strkd.Prelude.Result.{ok, err}
use strkd.Felt.{Felt}
use strkd.WalletCore.Domain.{
  user, agent, check_index, path_indices, max_hardened_index, path_indices-injective,
}
use strkd.WalletCore.Contract.{open_zeppelin}
use strkd.WalletCore.Accounts.{
  AccountRef, Registry, IsFree, next_index, next_index-IsFree, add, remove_by_address,
  remove_by_address-add,
}
use strkd.WalletCore.Tx.{Call, ComputeHash, encode_calls, get_selector_from_name}
use strkd.WalletCore.Tx.Decode.{read_calls, read_calls-encode_calls}
use strkd.Strk20.Error.{empty_proof_output}
use strkd.Strk20.Actions.{deposit}
use strkd.Strk20.Actions.Decode.{read_span}
use strkd.Strk20.Apply.{
  ScreeningAttestation, apply_actions_call, after_actions, apply_actions_call-decodes,
}
use strkd.Strk20.Invocation.{new, hash, to_rpc_json}
use strkd.Strk20.Invocation.Signed.{hash_of, hash-new, to_rpc_json-decodes}
use strkd.WalletRpc.Auth.{
  open_file, PairedClient, ClientStore, agent as agent_kind, app, with_hash, verify, pair, revoke,
  reattach,
}
use strkd.WalletRpc.Auth.Lookup.{or_else}
use strkd.WalletRpc.Auth.Restart.{opened, paired, open_file-restart}
use strkd.WalletRpc.Auth.Tokens.{unless_id, verify-revoke, verify-pair, verify-reattach}
use strkd.WalletRpc.Backoff.{free_attempts, check, record_success, misses, wait_of, check-misses}
use strkd.WalletRpc.Log.{
  LogEntry, in_memory, record_entry, recent, IsSummary, rest, then_record, recent-IsSummary,
}
use strkd.Examples.Planning.{toy}

abbrev bot : PairedClient
bot = record {
  id = "client-1";
  label = "bot";
  kind = agent_kind;
  granted_until = some 9;
  token_hash = "t1";
}

abbrev shop : PairedClient
shop = record {
  id = "client-2";
  label = "shop";
  kind = app;
  granted_until = none;
  token_hash = "t2";
}

abbrev two_clients : ClientStore
two_clients = record { clients = bot ∷ shop ∷ []; file = none }

abbrev same : String → String
same t = t

verify-revoke_example :
    verify same "t2" (revoke true "client-1" two_clients).0
    ≡ unless_id "client-1" (verify same "t2" two_clients)
verify-revoke_example = verify-revoke same true "client-1" "t2" two_clients ((refl, tt), (tt, tt))

verify-pair_example :
    verify same "t3" (pair same true "client-3" "t3" "cli" app two_clients)
    ≡ or_else (verify same "t3" two_clients) (
        if text_eq "t3" "t3"
        then some (record {
          id = "client-3";
          label = "cli";
          kind = app;
          granted_until = none;
          token_hash = "t3";
        })
        else none)
verify-pair_example = verify-pair same true "client-3" "t3" "cli" app "t3" two_clients

verify-reattach_example :
    ((reattach same true "t9" "shop" app two_clients).1 ≡ some "client-2")
    × (verify same "t2" (reattach same true "t9" "shop" app two_clients).0 ≡ (
        if text_eq "t9" "t2"
        then some (with_hash "t9" shop)
        else if text_eq "t2" "t2"
        then none
        else verify same "t2" two_clients))
verify-reattach_example =
    verify-reattach same true "t9" "shop" app two_clients shop "t2" refl (refl, (refl, tt))
      ((refl, tt), (tt, tt))

check-misses_example :
    (check (misses 7 6) 9 ≡ (
      if leb 6 free_attempts
      then ok tt
      else if ltb 9 (7 + wait_of 6)
      then err (7 + wait_of 6 - 9)
      else ok tt))
    × (check (record_success (misses 7 6)) 9 ≡ ok tt)
check-misses_example = check-misses 7 9 6 (omega arith)

path_indices-injective_example :
    ((path_indices user 3 ≡ path_indices agent 3) ↔ ((user ≡ agent) × (◌≡◌ {A = ℕ} 3 3)))
    × ((path_indices user 3).0 ≤ max_hardened_index)
    × ((path_indices user 3).1 ≤ max_hardened_index)
unfolding check_index
path_indices-injective_example = path_indices-injective user agent 3 3 refl refl

abbrev first_account : AccountRef
first_account = record {
  domain = user;
  index = 0;
  address = "0x1";
  label = "main";
  contract = open_zeppelin;
  owner_client_id = none;
}

abbrev bot_account : AccountRef
bot_account = record {
  domain = agent;
  index = 4;
  address = "0x2";
  label = "bot";
  contract = open_zeppelin;
  owner_client_id = some "client-1";
}

abbrev registry : Registry
registry = first_account ∷ []

next_index-IsFree_example :
    IsFree agent
      (next_index (first_account ∷ bot_account ∷ []) agent)
      (first_account ∷ bot_account ∷ [])
next_index-IsFree_example =
    next_index-IsFree agent (first_account ∷ bot_account ∷ []) (omega arith, (omega arith, tt))

no : first_account.address ≢ bot_account.address
no e = let f : text_eq "0x1" "0x2" ≡ true = subst (λ z. text_eq "0x1" z ≡ true) e refl in cc

remove_by_address-add_example :
    remove_by_address "0x2" (add bot_account registry) ≡ (registry, true)
remove_by_address-add_example = remove_by_address-add bot_account registry (no, tt)

abbrev transfer : Call
transfer = record { to = 5; selector = 6; calldata = 7 ∷ 8 ∷ [] }

read_calls-encode_calls_example :
    read_calls (encode_calls (transfer ∷ transfer ∷ []) ++ (9 ∷ []))
    ≡ some (transfer ∷ transfer ∷ [], 9 ∷ [])
read_calls-encode_calls_example = read_calls-encode_calls (transfer ∷ transfer ∷ []) (9 ∷ [])

abbrev toy_hash : ComputeHash
toy_hash sender calldata chain nonce deployment tip l1 l2 l1_data paymaster a b facts =
    sender + chain + nonce

hash-new_example :
    hash toy_hash (new toy 1 2 3 4 5 (deposit 7 10 ∷ []))
    ≡ hash_of toy_hash 2 (to_rpc_json (new toy 1 2 3 4 5 (deposit 7 10 ∷ [])) [])
hash-new_example = hash-new toy toy_hash 1 2 3 4 5 (deposit 7 10 ∷ []) []

to_rpc_json-decodes_example :
    (inner : List Felt) × (read_calls
        (to_rpc_json (new toy 1 2 3 4 5 (deposit 7 10 ∷ [])) []).calldata
      ≡ some (
        record {
          to = 1;
          selector = get_selector_from_name toy "compile_actions";
          calldata = 4 ∷ 5 ∷ inner;
        }
            ∷ [],
        [],
      ))
    × (read_span inner ≡ some (deposit 7 10 ∷ [], []))
to_rpc_json-decodes_example = to_rpc_json-decodes toy 1 2 3 4 5 (deposit 7 10 ∷ []) []

abbrev attestation : ScreeningAttestation
attestation = record { issued_at = 1700000000; sig_r = 3; sig_s = 4 }

-- Server actions that are two elements long.
abbrev read_pair : List Felt → Option ((Felt × Felt) × List Felt)
read_pair (a ∷ b ∷ r) = some ((a, b), r)
read_pair _ = none

apply_actions_call-decodes_example :
    (apply_actions_call toy 2 [] (some attestation) ≡ err empty_proof_output)
    × (call : Call) × (apply_actions_call toy 2 (6 ∷ 7 ∷ 8 ∷ []) (some attestation) ≡ ok call)
    × (call.to ≡ 2)
    × (call.selector ≡ get_selector_from_name toy "apply_actions")
    × (after_actions (read_pair call.calldata) ≡ some ((7, 8), some attestation))
apply_actions_call-decodes_example =
    apply_actions_call-decodes toy read_pair 2 (some attestation) 6 (7 ∷ 8 ∷ []) (7, 8) λ r. refl

abbrev asked : LogEntry
asked = record {
  ts_unix_ms = 5;
  method = "wallet_signTypedData";
  client = some "bot (client-1)";
  network = none;
  decision = "approved";
  outcome = "ok";
  error_code = none;
  latency_ms = 3;
  params_json = some "[]";
  result_json = some "0x1";
}

recent-IsSummary_example : All IsSummary (recent 10 (record_entry true asked (in_memory false)))
recent-IsSummary_example =
    recent-IsSummary (record_entry true asked (in_memory false)) 10
      (then_record (in_memory false) (in_memory false) true asked (rest (in_memory false)))

open_file-restart_example :
    open_file (pair same true "client-3" "t3" "cli" app (open_file none)).file
    ≡ pair same true "client-3" "t3" "cli" app (open_file none)
open_file-restart_example =
    open_file-restart same (open_file none)
      (pair same true "client-3" "t3" "cli" app (open_file none))
      (paired "client-3" "t3" "cli" app (open_file none) (open_file none) (opened none))
