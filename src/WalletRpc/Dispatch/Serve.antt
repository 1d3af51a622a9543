-- ===== src/WalletRpc/Dispatch/Serve.antt =====
-- `handle` and `dispatch` (crates/wallet-rpc/src/dispatch.rs). `none` is a panic of the task.
use strkd.Prelude.{ℕ, String, Bool, true, false, Option, none, some, [], ◌∷◌, map, if◌then◌else◌}
use strkd.Prelude.Text.{text_eq, ◌<>◌}
use strkd.Prelude.Json.{Value, null, bool, number, text, array_of, object_of}
use strkd.Prelude.Result.{Result, ok, err}
use strkd.WalletRpc.Auth.{PairedClient, grant_active, verify}
use strkd.WalletRpc.Dispatch.Pairing.{Handled, handle_pairing}
use strkd.WalletRpc.Dispatch.Params.{chain_name, is_deferred}
use strkd.WalletRpc.Dispatch.PrepareDeclare.{SierraClass}
use strkd.WalletRpc.Dispatch.Respond.{Strk20, respond, reports_decision}
use strkd.WalletRpc.Error.{
  WalletRpcError, user_refused, not_registered, not_implemented, code, message, to_object, Request,
  Response, ok_response, err_response,
}
use strkd.WalletRpc.Handler.{Env, World, client_name}
use strkd.WalletRpc.Log.{LogEntry, record_entry}
use strkd.WalletRpc.Session.{is_locked}
use strkd.WalletRpc.State.{ServerState, touch_activity}

-- `decision_label`
unfoldable pub decision_label : Result WalletRpcError Value → String
decision_label (ok _) = "approved"
decision_label (err user_refused) = "rejected"
decision_label (err _) = "n/a"

abbrev pub public_answer : Result WalletRpcError Value → Handled
public_answer r = record { result = r; decision = "n/a"; client = none }

abbrev opt_number : Option ℕ → Value
opt_number none = null
opt_number (some n) = number n

-- What `handle` makes of a handler's result.
abbrev pub labelled :
    String → PairedClient → Result WalletRpcError Value × World → Option Handled × World
labelled method client (result, w) = (
  some (record {
    result = result;
    decision = if reports_decision method then decision_label result else "n/a";
    client = some (client_name client);
  }),
  w,
)

module _ (e : Env) where
  unfoldable pub verify_token : Option String → ServerState → Option PairedClient
  verify_token none st = none
  verify_token (some t) st = verify e.hash_token t st.clients

  abbrev permissions : Option PairedClient → Value
  permissions none = array_of []
  permissions (some _) = array_of (text "accounts" ∷ [])

  abbrev grant_json : Option PairedClient → Value
  grant_json none = null
  grant_json (some c) =
      object_of
        (("active", bool (grant_active c e.now)) ∷ ("expires_at", opt_number c.granted_until) ∷ [])

  unfoldable pub status : Option String → ServerState → Value
  status token st = object_of (
      ("locked", bool (is_locked st.session))
      ∷ ("network", text (chain_name st.session.chain))
      ∷ ("api_version", text st.api_version)
      ∷ ("grant", grant_json (verify_token token st))
      ∷ [])

  module _ (classes : SierraClass) (pool : Strk20) where
    -- With a paired client.
    unfoldable pub handle_client : PairedClient → String → Value → World → Option Handled × World
    handle_client client method params w =
        if is_deferred method
        then (
          some (record {
            result = err (not_implemented (method <> " is planned for a later phase"));
            decision = "n/a";
            client = some (client_name client);
          }),
          w,
        )
        else labelled method client (respond e classes pool client method params w)

    unfoldable pub handle : Option String → Request → World → Option Handled × World
    handle token req w =
        let st = w.state in
        let method = req.method in
        if text_eq method "wallet_supportedWalletApi"
        then (some (public_answer (ok (array_of (text st.api_version ∷ [])))), w)
        else if text_eq method "wallet_supportedSpecs"
        then (some (public_answer (ok (array_of (map (λ s. text s) st.spec_versions)))), w)
        else if text_eq method "wallet_getPermissions"
        then (some (public_answer (ok (permissions (verify_token token st)))), w)
        else if text_eq method "companion_getStatus"
        then (some (public_answer (ok (status token st))), w)
        else if text_eq method "companion_requestPairing"
        then handle_pairing e req.params w
        else elim (verify_token token st) [
          | none ↦ (some (public_answer (err not_registered)), w)
          | some client ↦ handle_client client method req.params w
        ]

    abbrev sign_text : Bool → String
    sign_text true = "-"
    sign_text false = ""

    -- Code and message of an error.
    abbrev outcome_text : WalletRpcError → String
    outcome_text x =
        "error " <> sign_text (code x).0 <> e.host.formats.decimal (code x).1 <> ": " <> message x

    -- The entry of the log; the network is the session's once the request has ended.
    unfoldable pub entry_of : ℕ → Request → Handled → ServerState → LogEntry
    entry_of latency_ms req handled st =
        let base : LogEntry = record {
          ts_unix_ms = e.now;
          method = req.method;
          client = handled.client;
          network = some (chain_name st.session.chain);
          decision = handled.decision;
          outcome = "ok";
          error_code = none;
          latency_ms = latency_ms;
          params_json = e.host.formats.to_json req.params;
          result_json = none;
        } in
        elim handled.result [
          | ok v ↦ record base { result_json = e.host.formats.to_json v }
          | err x ↦ record base { outcome = outcome_text x; error_code = some (code x) }
        ]

    abbrev response_of : Value → Result WalletRpcError Value → Response
    response_of id (ok v) = ok_response id v
    response_of id (err x) = err_response id (to_object x)

    -- After `handle`: the log takes one entry, if it can be written.
    abbrev pub finish : Bool → ℕ → Request → Option Handled × World → Option Response × World
    finish taken latency_ms req (none, w) = (none, w)
    finish taken latency_ms req (some handled, w) = (
      some (response_of req.id handled.result),
      record w {
        state = record w.state {
          log = record_entry taken (entry_of latency_ms req handled w.state) w.state.log;
        };
      },
    )

    unfoldable pub dispatch : Bool → ℕ → Option String → Request → World → Option Response × World
    dispatch taken latency_ms token req w =
        finish taken latency_ms req
          (handle token req (record w { state = touch_activity e.now w.state }))
