-- ===== src/Examples/Requests.antt =====
-- Requests on a concrete wallet.
use strkd.Prelude.{
  ℕ, ◌+◌, ◌*◌, ◌/◌, ◌^◌, ◌≤◌, ◌<◌, ◌≡◌, ◌≢◌, ◌↔◌, ◌⊎◌, refl, subst, String, Bool, true, false,
  Option, none, some, List, [], ◌∷◌, arith, All,
}
use strkd.WalletCore.Accounts.{AccountRef, add, IsFree}
use strkd.WalletRpc.Auth.{verify}
use strkd.WalletRpc.Dispatch.Gated.{dispatch-Outcome, dispatch_unpaired, with_log_of}
use strkd.WalletRpc.Dispatch.Serve.{dispatch, verify_token}
use strkd.WalletRpc.Dispatch.Respond.{respond}
use strkd.WalletRpc.Error.{err_response, to_object, not_registered}
use strkd.WalletRpc.Handler.{signed, typed_data}
use strkd.WalletRpc.Handler.Approvals.{Outcome}
use strkd.WalletRpc.Handler.Signs.{EventBy}
use strkd.WalletRpc.Session.{unlock, reseal, reveal_mnemonic}
use strkd.WalletRpc.State.{touch_activity}
use strkd.Examples.Hosts.{env, world, classes, pool, request, bot_account}

dispatch-Outcome_example :
    Outcome env
      (verify_token env (some "t") world.state)
      "wallet_signTypedData"
      (record world { state = touch_activity 1000 world.state })
      (dispatch env classes pool true 3 (some "t") (request "wallet_signTypedData") world).1
dispatch-Outcome_example =
    dispatch-Outcome env classes pool true 3 (some "t") (request "wallet_signTypedData") world refl
      refl

dispatch_unpaired_example :
    ((dispatch env classes pool true 3 (some "x") (request "wallet_signTypedData") world).0
      ≡ some (err_response (request "wallet_signTypedData").id (to_object not_registered)))
    × ((dispatch env classes pool true 3 (some "x") (request "wallet_signTypedData") world).1.events
        ≡ [])
    × (with_log_of world.state
          (dispatch env classes pool true 3
            (some "x")
            (request "wallet_signTypedData")
            world).1.state
        ≡ touch_activity 1000 world.state)
unfolding verify_token verify
dispatch_unpaired_example =
    dispatch_unpaired env classes pool true 3 (some "x") (request "wallet_signTypedData") world refl
      refl

-- The approved request signs the text once.
signed_once :
    All
      (EventBy env.host (λ a. a ≡ bot_account) (λ s. s ≡ world.state.session))
      (dispatch env classes pool true 3 (some "t") (request "wallet_signTypedData") world).1.events
unfolding dispatch strkd.WalletRpc.Dispatch.Serve.handle verify_token verify touch_activity
    strkd.WalletRpc.Dispatch.Serve.handle_client strkd.WalletRpc.Dispatch.Params.is_deferred respond
    strkd.WalletRpc.Dispatch.Invoke.handle_sign_typed_data strkd.WalletRpc.Handler.asks
    strkd.WalletRpc.Dispatch.Prepare.prepare_typed_data strkd.WalletRpc.Dispatch.Params.param_str
    strkd.WalletRpc.Dispatch.Params.opt_param_str strkd.WalletRpc.Dispatch.Params.normalize_address
    strkd.WalletRpc.Dispatch.Resolve.scoped_account strkd.WalletRpc.Dispatch.Resolve.find_scoped
    strkd.WalletRpc.Session.registry strkd.WalletCore.Accounts.scoped_for
    strkd.WalletRpc.Dispatch.Params.scope_for strkd.Prelude.Formats.address_hex
    strkd.WalletRpc.Handler.gated_approval strkd.WalletRpc.Auth.grant_active
    strkd.WalletRpc.Handler.prompt strkd.WalletRpc.Handler.unless_rejected
    strkd.WalletRpc.Handler.acts strkd.WalletRpc.Handler.Signing.signs_typed_data
    strkd.WalletRpc.Session.Signing.sign_typed_data_for strkd.WalletRpc.Session.require_unlocked
    strkd.WalletCore.Keys.sign_typed_data strkd.WalletCore.Keys.typed_data_message_hash
    strkd.WalletCore.Keys.sign_hash strkd.WalletCore.Keys.private_key
    strkd.WalletCore.Domain.check_index strkd.WalletCore.Domain.path_indices
    strkd.WalletRpc.Handler.done
signed_once = ((refl, refl, refl), (tt, tt))
