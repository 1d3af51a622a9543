-- ===== src/Strk20/Planner/Phases.antt =====
-- The order of a plan's actions (crates/strk20/src/planner.rs).
use mathlib.Core.List.{append-nil}
use strkd.Prelude.{ℕ, ◌≤◌, ◌≡◌, refl, inl, inr, List, [], ◌∷◌, ◌++◌, arith, subst, All}
use strkd.Prelude.Result.{ok}
use strkd.Felt.{Felt, External}
use strkd.Strk20.Actions.{ClientAction, rank, phase}
use strkd.Strk20.Discovery.{Note}
use strkd.Strk20.Intent.{Intent, State, Plan, Randomness}
use strkd.Strk20.Build.{Build}
use strkd.Strk20.Build.Indices.{InPhase, IsShaped, Steps-IsShaped}
use strkd.Strk20.Planner.{initial, assemble, deposit_actions, spend_actions, plan}
use strkd.Strk20.Planner.Parts.{Withdraws, Started, Parts, plan-Parts}

-- No action stands behind one of a later phase, nor is any before phase `k`.
abbrev pub PhasedFrom : ℕ → List ClientAction → Type 0
PhasedFrom k [] = Unit
PhasedFrom k (a ∷ acts) = (k ≤ rank (phase a)) × PhasedFrom (rank (phase a)) acts

PhasedFrom-mono :
    (j k : ℕ) (acts : List ClientAction) → j ≤ k → PhasedFrom k acts → PhasedFrom j acts
PhasedFrom-mono j k [] h p = tt
PhasedFrom-mono j k (a ∷ acts) h p = (omega arith, p.1)

PhasedFrom-append :
    (k j : ℕ) (xs ys : List ClientAction)
    → k ≤ j
    → All (InPhase j) xs
    → PhasedFrom j ys
    → PhasedFrom k (xs ++ ys)
PhasedFrom-append k j [] ys h s p = PhasedFrom-mono k j ys h p
PhasedFrom-append k j (a ∷ xs) ys h s p =
    (omega arith, PhasedFrom-append (rank (phase a)) j xs ys (omega arith) s.1 p)

pub deposits-InPhase : (ds : List (Felt × ℕ)) → All (InPhase 3) (deposit_actions ds)
deposits-InPhase [] = tt
deposits-InPhase (d ∷ ds) = (refl, deposits-InPhase ds)

pub spends-InPhase : (ns : List Note) → All (InPhase 4) (spend_actions ns)
spends-InPhase [] = tt
spends-InPhase (n ∷ ns) = (refl, spends-InPhase ns)

pub Withdraws-InPhase :
    (os : List (Felt × Felt × ℕ)) (ws : List ClientAction) → Withdraws os ws → All (InPhase 6) ws
Withdraws-InPhase [] [] h = tt
Withdraws-InPhase [] (w ∷ ws) h = absurd h
Withdraws-InPhase (o ∷ os) [] h = absurd h
Withdraws-InPhase ((to_addr, token, amount) ∷ os) (w ∷ ws) ((random, p), h) =
    (rw p refl, Withdraws-InPhase os ws h)

initial-IsShaped : (state : State) → IsShaped (initial state)
initial-IsShaped state = record {
  channel_phase = tt;
  subchannel_phase = tt;
  note_phase = tt;
  salted = tt;
}

module _ (x : External) (intent : Intent) (state : State) where
  pub Started-IsShaped :
      (account : List ClientAction) (b : Build) → Started x intent state account b → IsShaped b
  Started-IsShaped account b (inl (_, _, p)) = rw p (initial-IsShaped state)
  Started-IsShaped account b (inr (_, _, _, s)) =
      Steps-IsShaped b s
        (record { channel_phase = tt; subchannel_phase = tt; note_phase = tt; salted = tt })

  pub Started-InPhase :
      (account : List ClientAction) (b : Build)
      → Started x intent state account b
      → All (InPhase 0) account
  Started-InPhase account b (inl (_, p, _)) = rw p tt
  Started-InPhase account b (inr (random, _, p, _)) = rw p (refl, tt)

  pub Parts-IsShaped : (p : Plan) (parts : Parts x intent state p) → IsShaped parts.build
  Parts-IsShaped p parts =
      Steps-IsShaped parts.build parts.steps
        (Started-IsShaped parts.account parts.start parts.started)

  Parts-PhasedFrom : (p : Plan) → Parts x intent state p → PhasedFrom 0 p.actions
  unfolding assemble
  Parts-PhasedFrom p parts =
      let shaped = Parts-IsShaped p parts in
      let b = parts.build in
      rw parts.actions_eq (
        PhasedFrom-append 0 0 parts.account _ (omega arith)
          (Started-InPhase parts.account parts.start parts.started)
          (PhasedFrom-append 0 1 b.open_channels _ (omega arith) shaped.channel_phase (
            PhasedFrom-append 1 2 b.open_subchannels _ (omega arith) shaped.subchannel_phase (
              PhasedFrom-append 2 3 (deposit_actions intent.deposits) _ (omega arith)
                (deposits-InPhase intent.deposits)
                (PhasedFrom-append 3 4 (spend_actions parts.spends) _ (omega arith)
                  (spends-InPhase parts.spends)
                  (PhasedFrom-append 4 5 b.create_notes parts.withdrawals (omega arith)
                    shaped.note_phase
                    (in_last parts.withdrawals (
                      Withdraws-InPhase intent.withdrawals parts.withdrawals parts.withdraws))))))))
    where
      in_last : (ws : List ClientAction) → All (InPhase 6) ws → PhasedFrom 5 ws
      in_last ws h =
          subst (PhasedFrom 5) (append-nil ws) (PhasedFrom-append 5 6 ws [] (omega arith) h tt)

-- Whenever `plan` succeeds, its actions are in the pool's phase order: register, channels,
-- subchannels, deposits, spends, new notes, withdrawals.
pub plan-PhasedFrom :
    (x : External) {R : Type 0} (rng : Randomness R) (fuel : ℕ) (intent : Intent) (state : State)
    (r r' : R) (p : Plan)
    → plan x rng fuel intent state r ≡ ok (p, r')
    → PhasedFrom 0 p.actions
plan-PhasedFrom x rng fuel intent state r r' p e =
    Parts-PhasedFrom x intent state p (plan-Parts x rng fuel intent state r r' p e)
