-- ===== src/WalletRpc/Handler/Starts.antt =====
-- Which accounts a request signs with, from its start: the prompt lies before what it signs.
use strkd.Prelude.{String, ◌≡◌, refl, sym, subst, [], inl, inr, ap, Bool-cases, ◌∷◌, All}
use strkd.Prelude.Result.{Result, ok, err}
use strkd.WalletCore.Accounts.{AccountRef}
use strkd.WalletRpc.Approval.{ApprovalRequest, approve, Decision-cases}
use strkd.WalletRpc.Auth.{PairedClient, grant_active}
use strkd.WalletRpc.Error.{WalletRpcError}
use strkd.WalletRpc.Handler.{
  Env, prompted, auto_approved, World, Action, ◌>>=◌, continue, asks, prompt, gated_approval,
  unless_rejected, client_name,
}
use strkd.WalletRpc.State.{ServerState}
use strkd.WalletRpc.Handler.Signs.{EventBy, Current, SignsBy, SignsBy-asks}

-- What an action adds to the events in the state in which the request arrives.
pub record Begins {A : Type 0} (e : Env) (P : AccountRef → Type 0) (st : ServerState) (m : Action A)
    : Type 0 where
  pub at :
      (w : World)
      → w.state ≡ st
      → All (EventBy e.host P (Current e st)) w.events
      → All (EventBy e.host P (Current e st)) (m w).1.events

-- A request from its start; the property of accounts may depend on the state in which it arrives.
pub record Starts {A : Type 0} (e : Env) (P : ServerState → AccountRef → Type 0) (m : Action A)
    : Type 0 where
  pub at :
      (w : World)
      → w.events ≡ []
      → All (EventBy e.host (P w.state) (Current e w.state)) (m w).1.events

module _ {A : Type 0} (e : Env) (P : AccountRef → Type 0) (st : ServerState) where
  pub Begins-prompted :
      (req : ApprovalRequest) (rest : Action A)
      → SignsBy e.host P (Current e st) rest
      → Begins e P st (prompt e req >>= λ d. unless_rejected d >>= λ _. rest)
  unfolding prompt unless_rejected
  Begins-prompted req rest k = record {
    at = λ w p g. elim (Decision-cases (e.approver req)) [
      | inl a ↦ rw a (
          k.at (record { state = e.meanwhile w.state; events = prompted req approve ∷ w.events })
            (inr (ap (λ z. (e.meanwhile z).session) p)) (tt, g))
      | inr r ↦ rw r (tt, g)
    ];
  }

  pub Begins-gated :
      (client : PairedClient) (method summary : String) (rest : Action A)
      → SignsBy e.host P (Current e st) rest
      → Begins e P st
          (gated_approval e client method summary >>= λ d. unless_rejected d >>= λ _. rest)
  unfolding gated_approval unless_rejected
  Begins-gated client method summary rest k = record {
    at = λ w p g. elim (Bool-cases (grant_active client e.now)) [
      | inl t ↦ rw t (
          k.at (record w { events = auto_approved client.id method ∷ w.events })
            (inl (ap (λ z. z.session) p)) (tt, g))
      | inr f ↦ rw f (
          (Begins-prompted
              (record { client_label = client_name client; method = method; summary = summary })
              rest k).at
            w p g)
    ];
  }

module _ {A : Type 0} (e : Env) (P : ServerState → AccountRef → Type 0) where
  pub Starts-SignsBy :
      (m : Action A) → ((st : ServerState) → SignsBy e.host (P st) (Current e st) m) → Starts e P m
  Starts-SignsBy m k = record {
    at = λ w n.
        (k w.state).at w (inl refl)
          (subst (All (EventBy e.host (P w.state) (Current e w.state))) (sym n) tt);
  }

  pub Starts-Begins : (m : Action A) → ((st : ServerState) → Begins e (P st) st m) → Starts e P m
  Starts-Begins m k = record {
    at = λ w n.
        (k w.state).at w refl
          (subst (All (EventBy e.host (P w.state) (Current e w.state))) (sym n) tt);
  }

  pub Starts-asks : (f : ServerState → Result WalletRpcError A) → Starts e P (asks f)
  Starts-asks f = Starts-SignsBy (asks f) λ st. SignsBy-asks e.host (P st) (Current e st) f

module _ {A B : Type 0} (e : Env) (P : ServerState → AccountRef → Type 0) where
  begun :
      (g : A → Action B) (r : Result WalletRpcError A) (w : World)
      → ((a : A) → r ≡ ok a → Begins e (P w.state) w.state (g a))
      → w.events ≡ []
      → All (EventBy e.host (P w.state) (Current e w.state)) (continue g (r, w)).1.events
  begun g (ok a) w k n =
      (k a refl).at w refl (subst (All (EventBy e.host (P w.state) (Current e w.state))) (sym n) tt)
  begun g (err _) w k n = subst (All (EventBy e.host (P w.state) (Current e w.state))) (sym n) tt

  -- What follows may use that the state in which the request arrives gave the value.
  pub Starts-asks-bind :
      (f : ServerState → Result WalletRpcError A) (g : A → Action B)
      → ((st : ServerState) (a : A) → f st ≡ ok a → Begins e (P st) st (g a))
      → Starts e P (asks f >>= g)
  unfolding asks
  Starts-asks-bind f g k = record { at = λ w n. begun g (f w.state) w (k w.state) n }
