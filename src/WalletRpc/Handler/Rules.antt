-- ===== src/WalletRpc/Handler/Rules.antt =====
-- Actions that sign, broadcast or change the state only once the user has approved, and a rule for
-- each way to build one.
use strkd.Prelude.{
  String, ◌≡◌, inl, inr, refl, Bool, true, false, Option, some, List, [], ◌∷◌, arith, if◌then◌else◌,
}
use strkd.Prelude.Text.{text_eq, text_eq_refl}
use strkd.Prelude.Result.{Result, ok, err}
use strkd.WalletRpc.Approval.{ApprovalRequest, Decision, approve, reject}
use strkd.WalletRpc.Auth.{PairedClient, grant_active}
use strkd.WalletRpc.Error.{WalletRpcError}
use strkd.Felt.{Felt}
use strkd.WalletCore.Accounts.{AccountRef}
use strkd.WalletCore.Contract.{ChainId}
use strkd.WalletCore.Tx.{Call, InvokeV3Params}
use strkd.WalletRpc.Session.{WalletSession}
use strkd.WalletRpc.Handler.Approvals.{is_grantable, protected, Approved, Outcome}
use strkd.WalletRpc.Handler.Signing.{
  signs_typed_data, signs_invoke, signs_declare, signs_deploy_account,
}
use strkd.WalletRpc.State.{ServerState}
use strkd.WalletRpc.Handler.{
  Env, Event, prompted, auto_approved, World, Action, ◌>>=◌, continue, done, asks, steps, acts,
  sends, prompt, gated_approval, unless_rejected, client_name,
}

-- Approved stays approved.
pub record Keeps {A : Type 0} (e : Env) (caller : Option PairedClient) (method : String)
    (m : Action A) : Type 0 where
  pub at : (w : World) → Approved e caller method w → Approved e caller method (m w).1

pub record Guarded {A : Type 0} (e : Env) (caller : Option PairedClient) (method : String)
    (m : Action A) : Type 0 where
  pub at : (w : World) → w.events ≡ [] → Outcome e caller method w (m w).1

module _ {A : Type 0} (e : Env) (caller : Option PairedClient) (method : String) where
  pub Keeps-done : (a : A) → Keeps e caller method (done a)
  unfolding done
  Keeps-done a = record { at = λ w h. h }

  pub Keeps-asks : (f : ServerState → Result WalletRpcError A) → Keeps e caller method (asks f)
  unfolding asks
  Keeps-asks f = record { at = λ w h. h }

  pub Keeps-steps :
      (f : ServerState → Result WalletRpcError A × ServerState) → Keeps e caller method (steps f)
  unfolding steps
  Keeps-steps f = record { at = λ w h. h }

  pub Keeps-acts :
      (event : WalletSession → A → Event) (f : WalletSession → Result WalletRpcError A)
      → Keeps e caller method (acts event f)
  unfolding acts
  Keeps-acts event f = record { at = λ w h. ground (arith, h) }

  pub Keeps-sends :
      (event : Event) (f : ServerState → Result WalletRpcError A)
      → Keeps e caller method (sends event f)
  unfolding sends
  Keeps-sends event f = record { at = λ w h. ground (arith, h) }

  pub Keeps-if :
      (b : Bool) (m n : Action A)
      → Keeps e caller method m
      → Keeps e caller method n
      → Keeps e caller method (if b then m else n)
  Keeps-if true m n k l = k
  Keeps-if false m n k l = l

module _ {A B : Type 0} (e : Env) (caller : Option PairedClient) (method : String) where
  continue-at :
      (f : A → Action B) (r : Result WalletRpcError A) (w : World)
      → ((a : A) → Keeps e caller method (f a))
      → Approved e caller method w
      → Approved e caller method (continue f (r, w)).1
  continue-at f (ok a) w k h = (k a).at w h
  continue-at f (err _) w k h = h

  pub Keeps-bind :
      (m : Action A) (f : A → Action B)
      → Keeps e caller method m
      → ((a : A) → Keeps e caller method (f a))
      → Keeps e caller method (m >>= f)
  Keeps-bind m f k l = record { at = λ w h. continue-at f (m w).0 (m w).1 l (k.at w h) }

module _ {A : Type 0} (e : Env) (caller : Option PairedClient) (method : String) where
  pub Guarded-done : (a : A) → Guarded e caller method (done a)
  unfolding done
  Guarded-done a = record { at = λ w h. ground (arith, h) }

  pub Guarded-asks : (f : ServerState → Result WalletRpcError A) → Guarded e caller method (asks f)
  unfolding asks
  Guarded-asks f = record { at = λ w h. ground (arith, h) }

  pub Guarded-steps :
      (f : ServerState → Result WalletRpcError A × ServerState)
      → ((st : ServerState) → protected (f st).1 ≡ protected st)
      → Guarded e caller method (steps f)
  unfolding steps
  Guarded-steps f k = record { at = λ w h. (ground (arith, h), inr (inl (k w.state))) }

  pub Guarded-if :
      (b : Bool) (m n : Action A)
      → Guarded e caller method m
      → Guarded e caller method n
      → Guarded e caller method (if b then m else n)
  Guarded-if true m n k l = k
  Guarded-if false m n k l = l

module _ {A B : Type 0} (e : Env) (caller : Option PairedClient) (method : String) where
  pub Guarded-asks-bind :
      (f : ServerState → Result WalletRpcError A) (g : A → Action B)
      → ((a : A) → Guarded e caller method (g a))
      → Guarded e caller method (asks f >>= g)
  unfolding asks
  Guarded-asks-bind f g k = record { at = λ w h. go w h (f w.state) }
    where
      go :
          (w : World)
          → w.events ≡ []
          → (r : Result WalletRpcError A) → Outcome e caller method w (continue g (r, w)).1
      go w h (ok a) = (k a).at w h
      go w h (err _) = ground (arith, h)

  -- A step that leaves the protected state alone, and an answer.
  pub Guarded-steps-done :
      (f : ServerState → Result WalletRpcError A × ServerState) (g : A → B)
      → ((st : ServerState) → protected (f st).1 ≡ protected st)
      → Guarded e caller method (steps f >>= λ a. done (g a))
  unfolding steps done
  Guarded-steps-done f g k = record { at = λ w h. go w h (f w.state).0 }
    where
      go :
          (w : World)
          → w.events ≡ []
          → (r : Result WalletRpcError A)
          → Outcome e caller method w
              (continue (λ a. done (g a)) (r, record w { state = (f w.state).1 })).1
      go w h (ok a) = (ground (arith, h), inr (inl (k w.state)))
      go w h (err _) = (ground (arith, h), inr (inl (k w.state)))

module _ {A : Type 0} (e : Env) (caller : Option PairedClient) (method : String) where
  -- A prompt, its refusal, and what follows on approval.
  pub Guarded-prompt :
      (req : ApprovalRequest) (rest : Action A)
      → text_eq req.method method ≡ true
      → Keeps e caller method rest
      → Guarded e caller method (prompt e req >>= λ d. unless_rejected d >>= λ _. rest)
  unfolding prompt unless_rejected
  Guarded-prompt req rest same k = record { at = λ w h. go w h (e.approver req) refl }
    where
      go :
          (w : World)
          → w.events ≡ []
          → (d : Decision) → e.approver req ≡ d
          → Outcome e caller method w
              (continue
                (λ _. rest)
                (unless_rejected d
                  (record { state = e.meanwhile w.state; events = prompted req d ∷ w.events }))).1
      go w h approve said =
          let (g, a) =
            k.at (record { state = e.meanwhile w.state; events = prompted req approve ∷ w.events })
              (ground (arith, h, same, said), ground (arith, h, same, said)) in
          (g, inl a)
      go w h reject said = (ground (arith, h), inr (inr refl))

module _ {A : Type 0} (e : Env) (client : PairedClient) (method : String) where
  pub Guarded-gated_approval :
      (summary : String) (rest : Action A)
      → is_grantable method ≡ true
      → Keeps e (some client) method rest
      → Guarded e
          (some client)
          method
          (gated_approval e client method summary >>= λ d. unless_rejected d >>= λ _. rest)
  unfolding gated_approval unless_rejected
  Guarded-gated_approval summary rest covered k = go (grant_active client e.now) refl
    where
      req : ApprovalRequest
      req = record { client_label = client_name client; method = method; summary = summary }

      go :
          (active : Bool)
          → grant_active client e.now ≡ active
          → Guarded e (some client) method (
              (λ w.
                if active
                then (ok approve, record w { events = auto_approved client.id method ∷ w.events })
                else prompt e req w)
              >>= λ d. unless_rejected d >>= λ _. rest)
      go true granted = record {
        at = λ w h.
            let m = text_eq_refl method in
            let i = text_eq_refl client.id in
            let (g, a) =
              k.at (record w { events = auto_approved client.id method ∷ w.events })
                (
                  ground (arith, h, m, i, covered, granted),
                  ground (arith, h, m, i, covered, granted),
                ) in
            (g, inl a);
      }
      go false _ = Guarded-prompt e (some client) method req rest (text_eq_refl method) k

module _ (e : Env) (caller : Option PairedClient) (method : String) where
  pub Keeps-signs_typed_data :
      (a : AccountRef) (json : String) → Keeps e caller method (signs_typed_data e a json)
  unfolding signs_typed_data
  Keeps-signs_typed_data a json = Keeps-acts e caller method _ _

  pub Keeps-signs_invoke :
      (a : AccountRef) (calls : List Call) (chain : ChainId) (params : InvokeV3Params)
      → Keeps e caller method (signs_invoke e a calls chain params)
  unfolding signs_invoke
  Keeps-signs_invoke a calls chain params = Keeps-acts e caller method _ _

  pub Keeps-signs_declare :
      (a : AccountRef) (class_hash compiled : Felt) (chain : ChainId) (params : InvokeV3Params)
      → Keeps e caller method (signs_declare e a class_hash compiled chain params)
  unfolding signs_declare
  Keeps-signs_declare a class_hash compiled chain params = Keeps-acts e caller method _ _

  pub Keeps-signs_deploy_account :
      (a : AccountRef) (chain : ChainId) (params : InvokeV3Params)
      → Keeps e caller method (signs_deploy_account e a chain params)
  unfolding signs_deploy_account
  Keeps-signs_deploy_account a chain params = Keeps-acts e caller method _ _

pub ruleset keeps_rules = (
  Keeps-done, Keeps-asks, Keeps-steps, Keeps-signs_typed_data, Keeps-signs_invoke,
  Keeps-signs_declare, Keeps-signs_deploy_account, Keeps-sends, Keeps-if, Keeps-bind,
)
