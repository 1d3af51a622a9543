-- ===== src/WalletRpc/Dispatch/Pairing.antt =====
-- `companion_requestPairing` (crates/wallet-rpc/src/dispatch.rs). `none` is a panic of the task that
-- answers the request.
use strkd.Prelude.{ℕ, String, true, Option, none, some, [], ◌∷◌, if◌then◌else◌, length}
use strkd.Prelude.Text.{text_eq, ◌<>◌}
use strkd.Prelude.Json.{Value, bool, text, object_of}
use strkd.Prelude.Result.{Result, ok, err}
use strkd.WalletCore.Accounts.{scoped_for}
use strkd.WalletRpc.Approval.{ApprovalRequest, approve, reject}
use strkd.WalletRpc.Auth.{ClientKind, find_id, pair, reattach}
use strkd.WalletRpc.Dispatch.Params.{opt_param_str, or_default, is_set}
use strkd.WalletRpc.Error.{WalletRpcError, user_refused}
use strkd.WalletRpc.Handler.{Env, World, prompted}
use strkd.WalletRpc.Session.{registry}
use strkd.WalletRpc.State.{ServerState}

-- The outcome of a request, and what the log records of it.
pub record Handled : Type 0 where
  pub result : Result WalletRpcError Value
  pub decision : String
  pub client : Option String

abbrev pub kind_of_param : Option String → ClientKind
kind_of_param none = ClientKind.app
kind_of_param (some s) = if text_eq s "agent" then ClientKind.agent else ClientKind.app

-- `{:?}`
abbrev kind_debug : ClientKind → String
kind_debug ClientKind.agent = "Agent"
kind_debug ClientKind.app = "App"

abbrev pub refused : String → Handled
refused name = record { result = err user_refused; decision = "rejected"; client = some name }

abbrev approved : String → Value → Handled
approved name v = record { result = ok v; decision = "approved"; client = some name }

-- How many accounts the client with the id has; 0 in a locked session.
abbrev account_count : String → ServerState → ℕ
account_count id st = elim (registry st.session) [
  | err _ ↦ 0
  | ok reg ↦ length (scoped_for (some id) reg)
]

module _ (e : Env) where
  abbrev pub pairing_request : String → String → ApprovalRequest
  pairing_request name summary = record {
    client_label = name;
    method = "companion_requestPairing";
    summary = summary;
  }

  -- The world in which the user's answer arrives.
  abbrev pub answered : ApprovalRequest → World → World
  answered req w = record {
    state = e.meanwhile w.state;
    events = prompted req (e.approver req) ∷ w.events;
  }

  -- `clients.reattach(&name, kind).expect("client existed")`
  unfoldable pub finish_reattach : String → ClientKind → World → Option Handled × World
  finish_reattach name kind w =
      let (store, found) =
        reattach e.hash_token e.clients_written e.new_token name kind w.state.clients in
      elim found [
        | none ↦ (none, record w { state = record w.state { clients = store } })
        | some id ↦ (
          some (
              approved name (
                object_of (
                  ("client_id", text id)
                  ∷ ("token", text e.new_token)
                  ∷ ("reattached", bool true)
                  ∷ []))),
          record w { state = record w.state { clients = store } },
        )
      ]

  unfoldable pub finish_pair : String → ClientKind → World → Option Handled × World
  finish_pair name kind w = (
    some (
        approved name
          (object_of (("client_id", text e.new_id) ∷ ("token", text e.new_token) ∷ []))),
    record w {
      state = record w.state {
        clients =
            pair e.hash_token e.clients_written e.new_id e.new_token name kind w.state.clients;
      };
    },
  )

  abbrev pub reattach_request : String → ClientKind → String → ServerState → ApprovalRequest
  reattach_request name kind id st = pairing_request name (
      "Re-attach "
      <> kind_debug kind
      <> " client \""
      <> name
      <> "\" ("
      <> id
      <> ") — the caller will control "
      <> e.host.formats.decimal (account_count id st)
      <> " existing account(s)")

  unfoldable pub ask_reattach : String → ClientKind → String → World → Option Handled × World
  ask_reattach name kind id w =
      let req = reattach_request name kind id w.state in
      elim (e.approver req) [
        | reject ↦ (some (refused name), answered req w)
        | approve ↦ finish_reattach name kind (answered req w)
      ]

  unfoldable pub ask_pair : String → ClientKind → World → Option Handled × World
  ask_pair name kind w =
      let req =
        pairing_request name ("Pair new " <> kind_debug kind <> " client \"" <> name <> "\"") in
      elim (e.approver req) [
        | reject ↦ (some (refused name), answered req w)
        | approve ↦ finish_pair name kind (answered req w)
      ]

  unfoldable pub handle_pairing : Value → World → Option Handled × World
  handle_pairing params w =
      let name = or_default "unnamed client" (opt_param_str params "name") in
      let kind = kind_of_param (opt_param_str params "kind") in
      let existing = if is_set params "reattach" then find_id name kind w.state.clients else none in
      elim existing [ some id ↦ ask_reattach name kind id w | none ↦ ask_pair name kind w ]
