-- ===== src/Examples/Vaults.antt =====
-- Vaults, links, headers and estimates on concrete data.
use strkd.Prelude.{
  ℕ, ◌+◌, ◌*◌, ◌/◌, ◌≤◌, ◌<◌, ◌≡◌, ◌↔◌, ◌⊎◌, refl, ap, true, false, none, some, [], ◌∷◌, arith, All,
}
use strkd.Prelude.Json.{Value, text, object_of}
use strkd.Prelude.Result.{ok, err}
use strkd.WalletCore.Accounts.{AccountRef, add, IsFree, next_index, max_index}
use strkd.WalletCore.Domain.{agent, agent_index_limit}
use strkd.WalletCore.Vault.{EncryptedVault, unseal, seal, default_params, derive_key}
use strkd.WalletCore.Vault.Opening.{unseal-seal}
use strkd.WalletCore.Tx.{no_bounds}
use strkd.WalletRpc.Approval.{approve}
use strkd.WalletRpc.Auth.{ClientKind, find_id}
use strkd.WalletRpc.Dispatch.Answers.{ask_reattach-none}
use strkd.WalletRpc.Dispatch.Pairing.{ask_reattach, reattach_request}
use strkd.WalletRpc.Dispatch.Declared.{Agrees, prepare_declare-Agrees}
use strkd.WalletRpc.Dispatch.PrepareDeclare.{DeclarePlan, prepare_declare}
use strkd.WalletRpc.Dispatch.Scope.{InScope}
use strkd.WalletRpc.Dispatch.Query.{encode_query, decode_query, IsPlain, decode_query-encode_query}
use strkd.WalletRpc.Dispatch.Stored.{Holds, create_and_store-cases, grant_until_bounds}
use strkd.WalletRpc.Dispatch.Wallet.{create_and_store, grant_days, grant_until}
use strkd.WalletRpc.Error.{WalletRpcError}
use strkd.WalletRpc.Node.{bound_from_estimate, node_u128, with_margin}
use strkd.WalletRpc.Node.Margin.{bound_from_estimate-covers}
use strkd.WalletRpc.Server.{HeaderMap, transport_guard, rpc_handler, bearer}
use strkd.WalletRpc.Server.Guarded.{IsNative, transport_guard_iff, rpc_handler-cases}
use strkd.WalletRpc.Dispatch.Serve.{dispatch}
use strkd.WalletRpc.Error.{Request}
use strkd.WalletRpc.Session.{
  WalletSession, unlock, reseal, reveal_mnemonic, with_registry, require_unlocked,
}
use strkd.WalletRpc.Session.Keyring.{create_agent_account, derived}
use strkd.WalletCore.Keys.{account_address, deployment_data, public_key, private_key}
use strkd.WalletCore.Domain.{check_index, path_indices}
use strkd.WalletCore.Contract.{sepolia, deployment, salt_policy}
use strkd.Prelude.Formats.{address_hex}
use strkd.WalletRpc.Session.Reseal.{contents_in, unlock-reseal}
use strkd.Examples.Hosts.{
  host, contents, env, state, world, classes, pool, request, sign_params, bot, bot_account,
  unlocked, session, twelve, formats,
}

abbrev sealed : EncryptedVault
sealed = record { version = 2; kdf_params = default_params []; nonce = twelve; ciphertext = 5 ∷ [] }

unseal-seal_example : unseal (host contents).vault "pass" sealed ≡ ok (5 ∷ [])
unfolding seal derive_key
unseal-seal_example =
    unseal-seal (host contents).vault [] twelve "pass" (5 ∷ []) sealed
      (λ k n p c e. ground (arith, e)) refl refl

unlock-reseal_example :
    (unlock (host contents) sealed "pass" (session []) ≡ (
      ok tt,
      record { chain = (session []).chain; unlocked = some (unlocked (bot_account ∷ [])) },
    ))
    × (reveal_mnemonic (host contents) sealed "pass" ≡ ok "seed")
unfolding reseal seal derive_key require_unlocked
unlock-reseal_example =
    unlock-reseal (host contents) (unlocked (bot_account ∷ [])) (session (bot_account ∷ []))
      (session []) [] twelve sealed (λ k n p c e. ground (arith, e)) (λ bytes e. refl) refl refl
      refl

grant_until_bounds_example :
    (1 ≤ grant_days sign_params)
    × (grant_days sign_params ≤ 90)
    × (1000 + 86400000 ≤ grant_until env sign_params)
    × (grant_until env sign_params ≤ 1000 + 7776000000)
grant_until_bounds_example = grant_until_bounds env sign_params (omega arith)

abbrev headers : HeaderMap
headers = ("host", some "127.0.0.1:5000") ∷ ("x-companion-client", some "bot") ∷ []

transport_guard_iff_example : (transport_guard headers ≡ ok tt) ↔ IsNative headers
transport_guard_iff_example = transport_guard_iff headers

rpc_handler-cases_example :
    ((rpc_handler env classes pool true 3 headers (some (request "companion_getStatus")) world).1
      ≡ world)
    ⊎ (IsNative headers
        × ((req : Request) × (some (request "companion_getStatus") ≡ some req)
            × ((rpc_handler env classes pool true 3 headers
                  (some (request "companion_getStatus"))
                  world).1
                ≡ (dispatch env classes pool true 3 (bearer headers) req world).1)))
rpc_handler-cases_example =
    rpc_handler-cases env classes pool true 3 headers (some (request "companion_getStatus")) world

ask_reattach-none_example :
    ((ask_reattach env "bot" ClientKind.agent "client-1" world).0 ≡ none) ↔ (
      (env.approver (reattach_request env "bot" ClientKind.agent "client-1" world.state) ≡ approve)
      × (find_id "bot" ClientKind.agent (env.meanwhile world.state).clients ≡ none))
ask_reattach-none_example = ask_reattach-none env "bot" ClientKind.agent "client-1" world

decode_query-encode_query_example :
    All IsPlain (encode_query (38 ∷ 65 ∷ []))
    × (decode_query (encode_query (38 ∷ 65 ∷ [])) ≡ 38 ∷ 65 ∷ [])
decode_query-encode_query_example =
    decode_query-encode_query (38 ∷ 65 ∷ []) (omega arith, (omega arith, tt))

abbrev gas_estimate : Value
gas_estimate = object_of (("l1_gas_consumed", text "0x2") ∷ ("l1_gas_price", text "0x2") ∷ [])

bound_from_estimate-covers_example :
    (◌≡◌ {A = ℕ} 3 (2 * 150 / 100)) × (◌≡◌ {A = ℕ} 3 (2 * 150 / 100)) × (2 ≤ 3) × (2 ≤ 3)
unfolding node_u128 bound_from_estimate with_margin
bound_from_estimate-covers_example =
    bound_from_estimate-covers formats gas_estimate "l1_gas_consumed" "l1_gas_price" 2 2
      (record { max_amount = 3; max_price_per_unit = 3 }) refl refl (omega arith) (omega arith) refl

created_is_bot_account :
    (a : AccountRef) (t : WalletSession)
    → create_agent_account (host contents) "client-1" "mine" (session []) ≡ (ok a, t)
    → bot_account ≡ a
unfolding create_agent_account derived account_address deployment_data public_key private_key
    check_index path_indices deployment salt_policy next_index max_index address_hex
created_is_bot_account a t e = cc

reads_back :
    (a : AccountRef) (t : WalletSession)
    → create_agent_account (host contents) "client-1" "mine" (session []) ≡ (ok a, t)
    → some contents ≡ some (contents_in (with_registry (add a []) (unlocked [])))
unfolding add
reads_back a t e =
    ap (λ b. some (contents_in (with_registry (add b []) (unlocked []))))
      (created_is_bot_account a t e)

create_and_store-cases_example :
    ((x : WalletRpcError) × (create_and_store env bot "mine" (state []) ≡ (err x, state [])))
    ⊎ ((a : AccountRef) × ((create_and_store env bot "mine" (state [])).0 ≡ ok a)
        × (a.domain ≡ agent)
        × (a.owner_client_id ≡ some "client-1")
        × (a.index < agent_index_limit)
        × IsFree agent a.index []
        × ((create_and_store env bot "mine" (state [])).1.session
            ≡ record (session []) { unlocked = some (with_registry (add a []) (unlocked [])) })
        × ((v : EncryptedVault) × ((create_and_store env bot "mine" (state [])).1.vault_store
              ≡ some (some v))
            × Holds (host contents) (with_registry (add a []) (unlocked [])) v))
create_and_store-cases_example =
    create_and_store-cases env bot "mine" [] twelve (state []) (unlocked []) none
      (λ k n p c e. ground (arith, e)) refl refl refl refl tt
      (λ a t e. (tt, λ bytes f. reads_back a t e))

abbrev declaration : Value
declaration = object_of (
    ("account_address", text "0x2")
    ∷ ("contract_class", text "class")
    ∷ ("compiled_class_hash", text "0x2")
    ∷ ("nonce", text "0x2")
    ∷ (
      "resource_bounds",
      object_of (
          ("l1_gas", object_of []) ∷ ("l2_gas", object_of []) ∷ ("l1_data_gas", object_of []) ∷ []),
    )
    ∷ [])

abbrev declared : DeclarePlan
declared = record {
  account = bot_account;
  sender = 2;
  chain = sepolia;
  contract_class = some (text "class");
  class_hash = 3;
  compiled_class_hash = 2;
  nonce = 2;
  bounds = record { l1_gas = no_bounds; l2_gas = no_bounds; l1_data_gas = no_bounds };
  submit = false;
}

prepare_declare-Agrees_example :
    Agrees (host contents) classes declaration (some (text "class")) 3 × InScope bot bot_account
unfolding prepare_declare strkd.WalletRpc.Dispatch.Params.param_str
    strkd.WalletRpc.Dispatch.Params.opt_param_str strkd.WalletRpc.Dispatch.Params.normalize_address
    strkd.WalletRpc.Dispatch.Resolve.scoped_account strkd.WalletRpc.Dispatch.Resolve.find_scoped
    strkd.WalletRpc.Session.registry strkd.WalletCore.Accounts.scoped_for
    strkd.WalletRpc.Dispatch.Params.scope_for address_hex
    strkd.WalletRpc.Dispatch.PrepareDeclare.class_hash_of strkd.WalletRpc.Dispatch.Params.felt_from
    strkd.WalletRpc.Dispatch.Resolve.resolve_chain strkd.WalletRpc.Dispatch.Resolve.resolve_nonce
    strkd.WalletRpc.Dispatch.Params.opt_nonce strkd.WalletRpc.Dispatch.Params.opt_fee_bounds
    strkd.WalletRpc.Dispatch.Params.given_bounds
    strkd.WalletRpc.Dispatch.Params.parse_resource_bounds
    strkd.WalletRpc.Dispatch.Params.bound_field
prepare_declare-Agrees_example =
    prepare_declare-Agrees (host contents) classes bot declaration (state (bot_account ∷ []))
      declared refl
