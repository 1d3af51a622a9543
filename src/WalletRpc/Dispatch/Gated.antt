-- ===== src/WalletRpc/Dispatch/Gated.antt =====
-- What a request may have done when it ends.
use strkd.Prelude.{
  ℕ, String, ◌≡◌, refl, sym, subst, inl, inr, Bool, false, ◌||◌, Option, none, some, [], arith,
  Bool-cases, if◌then◌else◌,
}
use strkd.Prelude.Text.{text_eq, text_eq-true}
use strkd.Prelude.Json.{Value}
use strkd.WalletRpc.Auth.{ClientKind, PairedClient}
use strkd.WalletRpc.Dispatch.Gate.{
  is_strk20, Guarded-row, handle_add_declare-Guarded, handle_add_invoke-Guarded,
  handle_create_agent_account-Guarded, handle_deploy_account-Guarded, handle_prove-Guarded,
  handle_request_funding-Guarded, handle_request_grant-Guarded, handle_sign_and_prove-Guarded,
  handle_sign_typed_data-Guarded, handle_switch_chain-Guarded, handle_watch_asset-Guarded,
}
use strkd.WalletRpc.Dispatch.Pairing.{
  Handled, finish_reattach, finish_pair, ask_reattach, ask_pair, handle_pairing,
}
use strkd.WalletRpc.Dispatch.PrepareDeclare.{SierraClass}
use strkd.WalletRpc.Dispatch.Respond.{Strk20, respond}
use strkd.WalletRpc.Dispatch.Serve.{
  public_answer, finish, handle_client, handle, dispatch, verify_token,
}
use strkd.Prelude.Result.{err}
use strkd.WalletRpc.Dispatch.Params.{is_deferred}
use strkd.WalletRpc.Error.{Request, not_registered, err_response, to_object}
use strkd.WalletRpc.Handler.{Env, World, Action}
use strkd.WalletRpc.Handler.Approvals.{Outcome}
use strkd.WalletRpc.Handler.Rules.{Guarded, Guarded-asks}
use strkd.WalletRpc.State.{ServerState, touch_activity}

-- The five methods that need no token.
abbrev pub is_public : String → Bool
is_public method =
    text_eq method "wallet_supportedWalletApi"
    || text_eq method "wallet_supportedSpecs"
    || text_eq method "wallet_getPermissions"
    || text_eq method "companion_getStatus"
    || text_eq method "companion_requestPairing"

-- The state `after`, with the log that `before` has.
abbrev pub with_log_of : ServerState → ServerState → ServerState
with_log_of before after = record after { log = before.log }

module _ (e : Env) (classes : SierraClass) (pool : Strk20) where
  skipped :
      (caller : Option PairedClient) (method name : String) (m n : Action Value)
      → text_eq method name ≡ false
      → Guarded e caller method n
      → Guarded e caller method (if text_eq method name then m else n)
  skipped caller method name m n f l = rw f l

  respond-Guarded :
      (client : PairedClient) (method : String) (params : Value)
      → is_strk20 method ≡ false
      → Guarded e (some client) method (respond e classes pool client method params)
  unfolding respond
  respond-Guarded client method params h =
      Guarded-row e _ method "wallet_requestChainId" _ _ (Guarded-asks e _ _ _) (
        Guarded-row e _ method "wallet_requestAccounts" _ _ (Guarded-asks e _ _ _) (
          Guarded-row e _ method "companion_listAccounts" _ _ (Guarded-asks e _ _ _) (
            Guarded-row e _ method "wallet_deploymentData" _ _ (Guarded-asks e _ _ _) (
              Guarded-row e _ method "wallet_signTypedData" _ _
                (handle_sign_typed_data-Guarded e client params)
                (Guarded-row e _ method "wallet_addInvokeTransaction" _ _
                  (handle_add_invoke-Guarded e client params)
                  (Guarded-row e _ method "wallet_addDeclareTransaction" _ _
                    (handle_add_declare-Guarded e classes client params)
                    (Guarded-row e _ method "companion_createAgentAccount" _ _
                      (handle_create_agent_account-Guarded e client params)
                      (Guarded-row e _ method "wallet_switchStarknetChain" _ _
                        (handle_switch_chain-Guarded e client params)
                        (Guarded-row e _ method "wallet_watchAsset" _ _
                          (handle_watch_asset-Guarded e client params)
                          (Guarded-row e _ method "companion_fundingSource" _ _
                            (Guarded-asks e _ _ _)
                            (Guarded-row e _ method "companion_reportIssue" _ _
                              (Guarded-asks e _ _ _)
                              (Guarded-row e _ method "companion_typedDataHash" _ _
                                (Guarded-asks e _ _ _)
                                (Guarded-row e _ method "companion_estimateFee" _ _
                                  (Guarded-asks e _ _ _)
                                  (Guarded-row e _ method "companion_requestGrant" _ _
                                    (handle_request_grant-Guarded e client params)
                                    (Guarded-row e _ method "companion_requestFunding" _ _
                                      (handle_request_funding-Guarded e client params)
                                      (Guarded-row e _ method "companion_deployAccount" _ _
                                        (handle_deploy_account-Guarded e client params)
                                        (Guarded-row e _ method "companion_prove" _ _
                                          (handle_prove-Guarded e _ _ params)
                                          (Guarded-row e _ method "companion_proveStatus" _ _
                                            (Guarded-asks e _ _ _)
                                            (Guarded-row e _ method "companion_proofActivity" _ _
                                              (Guarded-asks e _ _ _)
                                              (Guarded-row e _ method "companion_signAndProve" _ _
                                                (handle_sign_and_prove-Guarded e client params)
                                                (skipped _ method "wallet_strk20Balances" _ _
                                                  (ground (arith, h))
                                                  (skipped _ method "wallet_strk20PrepareInvoke" _ _
                                                    (ground (arith, h))
                                                    (skipped _ method
                                                      "wallet_strk20InvokeTransaction" _ _
                                                      (ground (arith, h))
                                                      (skipped _ method "companion_strk20Register" _
                                                        _ (ground (arith, h))
                                                        (Guarded-asks e _ _
                                                          _)))))))))))))))))))))))))

  ask_reattach-Outcome :
      (caller : Option PairedClient) (name : String) (kind : ClientKind) (id : String) (w : World)
      → w.events ≡ []
      → Outcome e caller "companion_requestPairing" w (ask_reattach e name kind id w).1
  unfolding ask_reattach finish_reattach
  ask_reattach-Outcome caller name kind id w h = ground (arith, h)

  ask_pair-Outcome :
      (caller : Option PairedClient) (name : String) (kind : ClientKind) (w : World)
      → w.events ≡ []
      → Outcome e caller "companion_requestPairing" w (ask_pair e name kind w).1
  unfolding ask_pair finish_pair
  ask_pair-Outcome caller name kind w h = ground (arith, h)

  asked-Outcome :
      (caller : Option PairedClient) (name : String) (kind : ClientKind) (existing : Option String)
      (w : World)
      → w.events ≡ []
      → Outcome e caller "companion_requestPairing" w
          (elim existing as (λ _. Option Handled × World) [
            | some id ↦ ask_reattach e name kind id w
            | none ↦ ask_pair e name kind w
          ]).1
  asked-Outcome caller name kind none w h = ask_pair-Outcome caller name kind w h
  asked-Outcome caller name kind (some id) w h = ask_reattach-Outcome caller name kind id w h

  handle_pairing-Outcome :
      (caller : Option PairedClient) (params : Value) (w : World)
      → w.events ≡ []
      → Outcome e caller "companion_requestPairing" w (handle_pairing e params w).1
  unfolding handle_pairing
  handle_pairing-Outcome caller params w h = asked-Outcome caller _ _ _ w h

  handle_client-Outcome :
      (client : PairedClient) (method : String) (params : Value) (w : World)
      → is_strk20 method ≡ false
      → w.events ≡ []
      → Outcome e (some client) method w (handle_client e classes pool client method params w).1
  unfolding handle_client
  handle_client-Outcome client method params w h n = elim (Bool-cases (is_deferred method)) [
    | inl d ↦ rw d (ground (arith, n))
    | inr d ↦ rw d ((respond-Guarded client method params h).at w n)
  ]

  -- Nothing was done.
  same-Outcome :
      (caller : Option PairedClient) (method : String) (w : World)
      → w.events ≡ []
      → Outcome e caller method w w
  same-Outcome caller method w n = ground (arith, n)

  verified-Outcome :
      (found : Option PairedClient) (req : Request) (w : World)
      → is_strk20 req.method ≡ false
      → w.events ≡ []
      → Outcome e found req.method w
          (elim found as (λ _. Option Handled × World) [
            | none ↦ (some (public_answer (err not_registered)), w)
            | some client ↦ handle_client e classes pool client req.method req.params w
          ]).1
  verified-Outcome none req w h n = same-Outcome none req.method w n
  verified-Outcome (some client) req w h n =
      handle_client-Outcome client req.method req.params w h n

  -- A row of the public methods: the state is left alone, or it is pairing.
  public_row :
      (caller : Option PairedClient) (method name : String) (r s : Option Handled × World)
      (w : World)
      → Outcome e caller name w r.1
      → Outcome e caller method w s.1
      → Outcome e caller method w (if text_eq method name then r else s).1
  public_row caller method name r s w k l = elim (Bool-cases (text_eq method name)) [
    | inl t ↦ rw t (subst (λ z. Outcome e caller z w r.1) (sym (text_eq-true method name t)) k)
    | inr f ↦ rw f l
  ]

  handle-Outcome :
      (token : Option String) (req : Request) (w : World)
      → is_strk20 req.method ≡ false
      → w.events ≡ []
      → Outcome e (verify_token e token w.state) req.method w (handle e classes pool token req w).1
  unfolding handle
  handle-Outcome token req w h n =
      public_row _ req.method "wallet_supportedWalletApi" _ _ w (same-Outcome _ _ w n) (
        public_row _ req.method "wallet_supportedSpecs" _ _ w (same-Outcome _ _ w n) (
          public_row _ req.method "wallet_getPermissions" _ _ w (same-Outcome _ _ w n) (
            public_row _ req.method "companion_getStatus" _ _ w (same-Outcome _ _ w n) (
              public_row _ req.method "companion_requestPairing" _ _ w
                (handle_pairing-Outcome _ req.params w n)
                (verified-Outcome (verify_token e token w.state) req w h n)))))

  finish-Outcome :
      (caller : Option PairedClient) (taken : Bool) (latency_ms : ℕ) (req : Request)
      (p : Option Handled × World) (w : World)
      → Outcome e caller req.method w p.1
      → Outcome e caller req.method w (finish e classes pool taken latency_ms req p).1
  finish-Outcome caller taken latency_ms req (none, v) w h = h
  finish-Outcome caller taken latency_ms req (some handled, v) w h = h

  verify_token-touch_activity :
      (token : Option String) (st : ServerState)
      → verify_token e token (touch_activity e.now st) ≡ verify_token e token st
  unfolding verify_token touch_activity
  verify_token-touch_activity none st = refl
  verify_token-touch_activity (some t) st = refl

  -- For every request but those of the privacy pool's four methods, from any state and whatever the
  -- token: each recorded signature and broadcast comes after an approval of that very method. An
  -- approval is a prompt of the method that the user approves or, only for the six methods on the
  -- client's own accounts, a grant of the client that the token belongs to, active at that time.
  -- Without an approval the session, the paired clients, the watch list and the vault file are as
  -- they were, or as other tasks left them while the prompt was open.
  pub dispatch-Outcome :
      (taken : Bool) (latency_ms : ℕ) (token : Option String) (req : Request) (w : World)
      → is_strk20 req.method ≡ false
      → w.events ≡ []
      → Outcome e
          (verify_token e token w.state)
          req.method
          (record w { state = touch_activity e.now w.state })
          (dispatch e classes pool taken latency_ms token req w).1
  unfolding dispatch
  dispatch-Outcome taken latency_ms token req w h n =
      let touched : World = record w { state = touch_activity e.now w.state } in
      let caller = verify_token e token w.state in
      finish-Outcome caller taken latency_ms req (handle e classes pool token req touched) touched (
        subst (λ c. Outcome e c req.method touched (handle e classes pool token req touched).1)
          (verify_token-touch_activity token w.state) (handle-Outcome token req touched h n))

  -- Without a token of a paired client, every method but the five public ones is refused as not
  -- registered: nothing is prompted, signed or sent, and only the log and the time of the last
  -- activity change.
  pub dispatch_unpaired :
      (taken : Bool) (latency_ms : ℕ) (token : Option String) (req : Request) (w : World)
      → verify_token e token w.state ≡ none
      → is_public req.method ≡ false
      → ((dispatch e classes pool taken latency_ms token req w).0
          ≡ some (err_response req.id (to_object not_registered)))
        × ((dispatch e classes pool taken latency_ms token req w).1.events ≡ w.events)
        × (with_log_of w.state (dispatch e classes pool taken latency_ms token req w).1.state
            ≡ touch_activity e.now w.state)
  unfolding dispatch handle verify_token touch_activity
  dispatch_unpaired taken latency_ms token req w h n = ground (arith, h, n)
