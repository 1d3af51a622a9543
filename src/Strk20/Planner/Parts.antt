-- ===== src/Strk20/Planner/Parts.antt =====
-- A successful `plan`, taken apart: what was settled, how the notes were placed, and the actions in
-- their order.
use strkd.Prelude.{
  ℕ, ◌≡◌, ◌⊎◌, inl, inr, refl, true, false, List, [], ◌∷◌, map, arith, Bool-cases, subst,
}
use strkd.Prelude.Map.{BTreeMap}
use strkd.Prelude.Result.{Result, ok, err}
use strkd.Felt.{Felt, External}
use strkd.Strk20.Actions.{ClientAction, set_viewing_key, withdraw}
use strkd.Strk20.Discovery.{Note}
use strkd.Strk20.Intent.{Intent, State, Plan, Randomness}
use strkd.Strk20.Balance.{settle}
use strkd.Strk20.Random.{lift, draw, >>=-eq-ok}
use strkd.Strk20.Build.{Build, ensure_channel, place_notes}
use strkd.Strk20.Build.Steps.{Steps, ensure_channel-Steps, place_notes-Steps}
use strkd.Strk20.Planner.{
  new_notes, initial, registers, warnings_of, assemble, registered_start, register_self, begin,
  withdraw_actions, plan,
}

-- The withdrawals as actions, one for each and in order.
abbrev pub Withdraws : List (Felt × Felt × ℕ) → List ClientAction → Type 0
Withdraws [] [] = Unit
Withdraws ((to_addr, token, amount) ∷ rest) (w ∷ ws) =
    ((random : Felt) × (w ≡ withdraw to_addr token amount random)) × Withdraws rest ws
Withdraws _ _ = ⊥

module _ (x : External) where
  abbrev pub Started : Intent → State → List ClientAction → Build → Type 0
  Started intent state account b =
      ((registers intent state ≡ false) × (account ≡ []) × (b ≡ initial state))
      ⊎ ((random : Felt) × (registers intent state ≡ true)
          × (account ≡ set_viewing_key random ∷ [])
          × Steps b (registered_start x state) [])

  pub record Parts (intent : Intent) (state : State) (p : Plan) : Type 0 where
    pub spends : List Note
    pub change : BTreeMap ℕ
    pub account : List ClientAction
    pub start : Build
    pub build : Build
    pub withdrawals : List ClientAction
    pub settled : settle intent state ≡ ok (spends, change)
    pub started : Started intent state account start
    pub steps : Steps build start (new_notes intent state change)
    pub withdraws : Withdraws intent.withdrawals withdrawals
    pub actions_eq : p.actions ≡ assemble intent account build spends withdrawals
    pub spent_eq : p.spent ≡ map (λ n. n.id) spends
    pub change_eq : p.change ≡ change
    pub warnings_eq : p.warnings ≡ warnings_of p.actions

module _ (x : External) {R : Type 0} (rng : Randomness R) where
  lift-eq-ok :
      {A : Type 0} (m : Result _ A) (r r' : R) (a : A) → lift {R = R} m r ≡ ok (a, r') → m ≡ ok a
  lift-eq-ok (ok b) r r' a e = ground arith
  lift-eq-ok (err y) r r' a e = absurd (ground arith)

  register_self-Steps :
      (state : State) (account : List ClientAction) (b : Build) (r r' : R)
      → register_self x rng state r ≡ ok ((account, b), r')
      → (random : Felt) × (account ≡ set_viewing_key random ∷ [])
        × Steps b (registered_start x state) []
  unfolding register_self
  register_self-Steps state account b r r' e =
      let (random, r₁, e₁, e₂) = >>=-eq-ok (draw rng.felt) _ r e in
      let (c, r₂, e₃, e₄) =
        >>=-eq-ok (ensure_channel rng (registered_start x state) state.user) _ r₁ e₂ in
      let p : c ≡ b = ground arith in
      (
        random,
        ground arith,
        subst (λ z. Steps z (registered_start x state) []) p
            (ensure_channel-Steps rng (registered_start x state) c state.user r₁ r₂ e₃),
      )

  begin-Started :
      (intent : Intent) (state : State) (account : List ClientAction) (b : Build) (r r' : R)
      → begin x rng intent state r ≡ ok ((account, b), r')
      → Started x intent state account b
  unfolding begin
  begin-Started intent state account b r r' e = elim (Bool-cases (registers intent state)) [
    | inl first ↦
        let f : register_self x rng state r ≡ ok ((account, b), r') = ground arith in
        let (random, p, s) = register_self-Steps state account b r r' f in inr (random, first, p, s)
    | inr already ↦ inl (already, ground arith, ground arith)
  ]

  withdraw_actions-Withdraws :
      (os : List (Felt × Felt × ℕ)) (ws : List ClientAction) (r r' : R)
      → withdraw_actions x rng os r ≡ ok (ws, r')
      → Withdraws os ws
  unfolding withdraw_actions
  withdraw_actions-Withdraws [] ws r r' e =
      let p : [] ≡ ws = ground arith in subst (Withdraws []) p tt
  withdraw_actions-Withdraws ((to_addr, token, amount) ∷ os) ws r r' e =
      let (random, r₁, e₁, e₂) = >>=-eq-ok (draw rng.felt) _ r e in
      let (rest, r₂, e₃, e₄) = >>=-eq-ok (withdraw_actions x rng os) _ r₁ e₂ in
      let p : withdraw to_addr token amount random ∷ rest ≡ ws = ground arith in
      subst (Withdraws ((to_addr, token, amount) ∷ os)) p
        ((random, refl), withdraw_actions-Withdraws os rest r₁ r₂ e₃)

  -- A plan has these parts.
  pub plan-Parts :
      (fuel : ℕ) (intent : Intent) (state : State) (r r' : R) (p : Plan)
      → plan x rng fuel intent state r ≡ ok (p, r')
      → Parts x intent state p
  unfolding plan
  plan-Parts fuel intent state r r' p e =
      let ((spends, change), r₁, e₁, e₂) = >>=-eq-ok (lift (settle intent state)) _ r e in
      let ((account, b₀), r₂, e₃, e₄) = >>=-eq-ok (begin x rng intent state) _ r₁ e₂ in
      let (b, r₃, e₅, e₆) =
        >>=-eq-ok (place_notes rng fuel b₀ (new_notes intent state change)) _ r₂ e₄ in
      let (ws, r₄, e₇, e₈) = >>=-eq-ok (withdraw_actions x rng intent.withdrawals) _ r₃ e₆ in
      record {
        spends = spends;
        change = change;
        account = account;
        start = b₀;
        build = b;
        withdrawals = ws;
        settled = lift-eq-ok (settle intent state) r r₁ (spends, change) e₁;
        started = begin-Started intent state account b₀ r₁ r₂ e₃;
        steps = place_notes-Steps rng fuel b₀ b (new_notes intent state change) r₂ r₃ e₅;
        withdraws = withdraw_actions-Withdraws intent.withdrawals ws r₃ r₄ e₇;
        actions_eq = ground arith;
        spent_eq = ground arith;
        change_eq = ground arith;
        warnings_eq = ground arith;
      }
