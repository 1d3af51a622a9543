-- ===== src/WalletRpc/Handler/Signs.antt =====
-- Which accounts an action signs with: a property of each signature's account, and a rule for each way
-- to build an action.
use strkd.Prelude.{
  arith, String, ◌≡◌, refl, sym, subst, List, ◌⊎◌, Bool, true, false, ◌∷◌, All, if◌then◌else◌,
}
use strkd.Prelude.Result.{Result, ok, err}
use strkd.WalletCore.Accounts.{AccountRef}
use strkd.WalletRpc.Error.{WalletRpcError}
use strkd.WalletRpc.Handler.{
  Env, Event, prompted, auto_approved, signed, broadcast, World, Action, ◌>>=◌, continue, done,
  asks, steps, acts, sends,
}
use strkd.Felt.{Felt}
use strkd.WalletCore.Contract.{ChainId}
use strkd.WalletCore.Tx.{Call, InvokeV3Params}
use strkd.WalletRpc.Handler.Signing.{
  signature_for, signs_typed_data, signs_invoke, signs_declare, signs_deploy_account,
}
use strkd.WalletRpc.Handler.Steady.{
  Steady, Steady-asks, Steady-sends, Steady-typed_data, Steady-invoke, Steady-declare,
  Steady-deploy_account,
}
use strkd.WalletRpc.Session.{Host, WalletSession}
use strkd.WalletRpc.State.{ServerState}

-- The account of a signature or a broadcast has the property. A signature is the one that a session,
-- which has the property of sessions, gives with that account's key.
abbrev pub EventBy : Host → (AccountRef → Type 0) → (WalletSession → Type 0) → Event → Type 0
EventBy h P T (signed a x s signature) = P a × T s × (signature_for h a x s ≡ ok signature)
EventBy h P T (broadcast a) = P a
EventBy h P T (prompted _ _) = Unit {0}
EventBy h P T (auto_approved _ _) = Unit {0}

-- The session of the state, or what others made of it while a prompt was open.
abbrev pub Current : Env → ServerState → WalletSession → Type 0
Current e st s = (s ≡ st.session) ⊎ (s ≡ (e.meanwhile st).session)

-- What an action adds to the events after the approval.
pub record SignsBy {A : Type 0} (h : Host) (P : AccountRef → Type 0) (T : WalletSession → Type 0)
    (m : Action A) : Type 0 where
  pub at :
      (w : World)
      → T w.state.session
      → All (EventBy h P T) w.events
      → All (EventBy h P T) (m w).1.events

module _ {A : Type 0} (h : Host) (P : AccountRef → Type 0) (T : WalletSession → Type 0) where
  pub SignsBy-done : (a : A) → SignsBy h P T (done a)
  unfolding done
  SignsBy-done a = record { at = λ w t g. g }

  pub SignsBy-asks : (f : ServerState → Result WalletRpcError A) → SignsBy h P T (asks f)
  unfolding asks
  SignsBy-asks f = record { at = λ w t g. g }

  pub SignsBy-steps :
      (f : ServerState → Result WalletRpcError A × ServerState) → SignsBy h P T (steps f)
  unfolding steps
  SignsBy-steps f = record { at = λ w t g. g }

  SignsBy-acts :
      (event : WalletSession → A → Event) (f : WalletSession → Result WalletRpcError A)
      → ((s : WalletSession) (x : A) → T s → f s ≡ ok x → EventBy h P T (event s x))
      → SignsBy h P T (acts event f)
  unfolding acts
  SignsBy-acts event f made = record { at = λ w t g. go w t g (f w.state.session) refl }
    where
      go :
          (w : World)
          → T w.state.session
          → All (EventBy h P T) w.events
          → (r : Result WalletRpcError A) → f w.state.session ≡ r
          → All
              (EventBy h P T)
              (elim r as (λ _. Result WalletRpcError A × World) [
                | err e ↦ (err e, w)
                | ok x ↦ (ok x, record w { events = event w.state.session x ∷ w.events })
              ]).1.events
      go w t g (ok x) eq = (made w.state.session x t eq, g)
      go w t g (err e) eq = g

  pub SignsBy-broadcast :
      (a : AccountRef) (f : ServerState → Result WalletRpcError A)
      → P a
      → SignsBy h P T (sends (broadcast a) f)
  unfolding sends
  SignsBy-broadcast a f p = record { at = λ w t g. (p, g) }

  pub SignsBy-if :
      (b : Bool) (m n : Action A)
      → SignsBy h P T m
      → SignsBy h P T n
      → SignsBy h P T (if b then m else n)
  SignsBy-if true m n k l = k
  SignsBy-if false m n k l = l

module _ {A B : Type 0} (h : Host) (P : AccountRef → Type 0) (T : WalletSession → Type 0) where
  continue-by :
      (f : A → Action B) (r : Result WalletRpcError A) (w : World)
      → ((a : A) → SignsBy h P T (f a))
      → T w.state.session
      → All (EventBy h P T) w.events
      → All (EventBy h P T) (continue f (r, w)).1.events
  continue-by f (ok a) w k t g = (k a).at w t g
  continue-by f (err _) w k t g = g

  pub SignsBy-bind :
      (m : Action A) (f : A → Action B)
      → Steady m
      → SignsBy h P T m
      → ((a : A) → SignsBy h P T (f a))
      → SignsBy h P T (m >>= f)
  SignsBy-bind m f same k l = record {
    at = λ w t g. continue-by f (m w).0 (m w).1 l (subst T (sym (same.at w)) t) (k.at w t g);
  }

  -- An action that may change the session, and an answer.
  pub SignsBy-answer :
      (m : Action A) (b : A → B) → SignsBy h P T m → SignsBy h P T (m >>= λ a. done (b a))
  unfolding done
  SignsBy-answer m b k = record { at = λ w t g. go (m w).0 (m w).1 (k.at w t g) }
    where
      go :
          (r : Result WalletRpcError A) (w : World)
          → All (EventBy h P T) w.events
          → All (EventBy h P T) (continue (λ a. done (b a)) (r, w)).1.events
      go (ok a) w g = g
      go (err _) w g = g

module _ (e : Env) (P : AccountRef → Type 0) (T : WalletSession → Type 0) (a : AccountRef)
    (p : P a) where
  pub SignsBy-typed_data : (json : String) → SignsBy e.host P T (signs_typed_data e a json)
  unfolding signs_typed_data
  SignsBy-typed_data json = SignsBy-acts e.host P T _ _ λ s x t eq. (p, t, ground (arith, eq))

  pub SignsBy-invoke :
      (calls : List Call) (chain : ChainId) (params : InvokeV3Params)
      → SignsBy e.host P T (signs_invoke e a calls chain params)
  unfolding signs_invoke
  SignsBy-invoke calls chain params =
      SignsBy-acts e.host P T _ _ λ s x t eq. (p, t, ground (arith, eq))

  pub SignsBy-declare :
      (class_hash compiled : Felt) (chain : ChainId) (params : InvokeV3Params)
      → SignsBy e.host P T (signs_declare e a class_hash compiled chain params)
  unfolding signs_declare
  SignsBy-declare class_hash compiled chain params =
      SignsBy-acts e.host P T _ _ λ s x t eq. (p, t, ground (arith, eq))

  pub SignsBy-deploy_account :
      (chain : ChainId) (params : InvokeV3Params)
      → SignsBy e.host P T (signs_deploy_account e a chain params)
  unfolding signs_deploy_account
  SignsBy-deploy_account chain params =
      SignsBy-acts e.host P T _ _ λ s x t eq. (p, t, ground (arith, eq))

pub ruleset signs_rules = (
  Steady-asks, Steady-sends, Steady-typed_data, Steady-invoke, Steady-declare,
  Steady-deploy_account, SignsBy-done, SignsBy-asks, SignsBy-steps, SignsBy-typed_data,
  SignsBy-invoke, SignsBy-declare, SignsBy-deploy_account, SignsBy-broadcast, SignsBy-if,
  SignsBy-bind, SignsBy-answer,
)
