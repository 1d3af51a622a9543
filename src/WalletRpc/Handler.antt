-- ===== src/WalletRpc/Handler.antt =====
-- Handlers as actions on the state: an action returns a result or an error, and the state with what
-- it did until then. `Event`s record the prompts, signatures and broadcasts of one request, the last
-- one first; they are an observation, which no handler reads. Requests interleave where a prompt is
-- open: `meanwhile` is what other requests and the desktop do then.
pub mod Approvals
pub mod Rules
pub mod Signing
pub mod Signs
pub mod Starts
pub mod Steady
use strkd.Prelude.{
  ℕ, String, Bool, true, false, Option, List, [], ◌∷◌, if◌then◌else◌, ◌||◌, ◌&&◌, not,
}
use strkd.Prelude.Text.{◌<>◌}
use strkd.Prelude.Json.{Value}
use strkd.Prelude.Result.{Result, ok, err}
use strkd.Felt.{Felt}
use strkd.WalletCore.Accounts.{AccountRef}
use strkd.WalletCore.Contract.{ChainId}
use strkd.WalletCore.Tx.{Call, InvokeV3Params}
use strkd.WalletRpc.Approval.{ApprovalRequest, Approver, Decision, approve, reject}
use strkd.WalletRpc.Auth.{PairedClient, grant_active}
use strkd.WalletRpc.Error.{WalletRpcError, user_refused}
use strkd.WalletRpc.Session.{Host, Draws, WalletSession}
use strkd.WalletRpc.State.{ServerState}
use strkd.Prover.Enqueue.{ProveRequest, Clock}

-- What the surroundings give to one request: the libraries, the user, the other tasks, the clock,
-- random ids and tokens, the prover, and whether writes of files succeed.
pub record Env : Type 0 where
  pub host : Host
  pub approver : Approver
  pub meanwhile : ServerState → ServerState
  pub now : ℕ
  pub new_id : String
  pub new_token : String
  pub hash_token : String → String
  pub clients_written : Bool
  pub draws : Draws
  pub vault_written : Bool
  pub prove : ProveRequest Value → Result String Value
  pub job_id_of : ℕ → String
  pub prove_clock : Clock
  pub proof_written : Bool

-- What an account signs.
pub data Signed : Type 0 where
  typed_data : String → Signed
  invoke : List Call → ChainId → InvokeV3Params → Signed
  declare : Felt → Felt → ChainId → InvokeV3Params → Signed
  deploy : ChainId → InvokeV3Params → Signed

pub data Event : Type 0 where
  prompted : ApprovalRequest → Decision → Event
  -- An active grant of the client with this id stood in for the prompt.
  auto_approved : String → String → Event
  -- What the account signed, the session that signed it, and the signature.
  signed : AccountRef → Signed → WalletSession → List Felt → Event
  broadcast : AccountRef → Event

pub record World : Type 0 where
  pub state : ServerState
  pub events : List Event

abbrev pub Action : Type 0 → Type 0
Action A = World → Result WalletRpcError A × World

module _ {A B : Type 0} where
  abbrev pub continue :
      (A → Action B) → Result WalletRpcError A × World → Result WalletRpcError B × World
  continue f (ok a, w) = f a w
  continue f (err e, w) = (err e, w)

  infixl 5 ◌>>=◌ ◌>>◌
  abbrev pub ◌>>=◌ : Action A → (A → Action B) → Action B
  ◌>>=◌ m f w = continue f (m w)

  abbrev pub ◌>>◌ : Action A → Action B → Action B
  m >> n = m >>= λ _. n

module _ {A : Type 0} where
  unfoldable pub done : A → Action A
  done a w = (ok a, w)

  -- A step that only reads the state, and may refuse.
  unfoldable pub asks : (ServerState → Result WalletRpcError A) → Action A
  asks f w = (f w.state, w)

  -- A step that replaces the state, whether or not it refuses.
  unfoldable pub steps : (ServerState → Result WalletRpcError A × ServerState) → Action A
  steps f w = let (r, st) = f w.state in (r, record w { state = st })

  -- A step that sends to a node, recorded also when the node answers with an error.
  unfoldable pub sends : Event → (ServerState → Result WalletRpcError A) → Action A
  sends event f w = (f w.state, record w { events = event ∷ w.events })

  -- A step that signs in the session, recorded with the session and the result when it succeeds.
  unfoldable pub acts :
      (WalletSession → A → Event) → (WalletSession → Result WalletRpcError A) → Action A
  acts event f w = elim (f w.state.session) [
    | err e ↦ (err e, w)
    | ok a ↦ (ok a, record w { events = event w.state.session a ∷ w.events })
  ]

abbrev pub client_name : PairedClient → String
client_name client = client.label <> " (" <> client.id <> ")"

module _ (e : Env) where
  -- `state.approver.request_approval(...)`
  unfoldable pub prompt : ApprovalRequest → Action Decision
  prompt req w = (
    ok (e.approver req),
    record { state = e.meanwhile w.state; events = prompted req (e.approver req) ∷ w.events },
  )

  unfoldable pub gated_approval : PairedClient → String → String → Action Decision
  unfolding prompt
  gated_approval client method summary w =
      if grant_active client e.now
      then (ok approve, record w { events = auto_approved client.id method ∷ w.events })
      else prompt (record { client_label = client_name client; method = method; summary = summary })
          w

-- `if decision == Decision::Reject { return Err(UserRefused) }`
unfoldable pub unless_rejected : Decision → Action (Unit {0})
unless_rejected approve w = (ok tt, w)
unless_rejected reject w = (err user_refused, w)
