-- ===== src/Strk20/Planner/Balanced.antt =====
-- A plan against the balance of each token and the notes of the state
-- (crates/strk20/src/planner.rs).
use mathlib.Core.List.{append-nil}
use strkd.Prelude.{
  ℕ, ◌+◌, ◌≤◌, ◌≡◌, ◌≢◌, refl, sym, inl, inr, Bool, true, false, List, [], ◌∷◌, map, arith, sum_by,
  sum_by-append, All, keep, keep-append,
}
use strkd.Prelude.Result.{ok}
use strkd.Felt.{Felt, External}
use strkd.Strk20.Actions.{ClientAction, use_note, rank, phase}
use strkd.Strk20.Discovery.{Note}
use strkd.Strk20.Intent.{Intent, State, Plan, Randomness}
use strkd.Strk20.Balance.Totals.{deposited, outgoing, outgoing-append, worth}
use strkd.Strk20.Balance.Conservation.{InRange, settle-worth, balances-IsSorted}
use strkd.Strk20.Balance.Spending.{IsSpendable, cover-le, cover-IsSpendable, cover-IsSorted}
use strkd.Strk20.Build.Indices.{created, InPhase, Steps-created}
use strkd.Strk20.Planner.{new_notes, assemble, deposit_actions, spend_actions, plan}
use strkd.Strk20.Planner.Parts.{Started, Parts, plan-Parts}
use strkd.Strk20.Planner.Phases.{
  Parts-IsShaped, Started-InPhase, deposits-InPhase, spends-InPhase, Withdraws-InPhase,
}
use strkd.Strk20.Planner.Conserves.{
  paid_in, paid_out, settle-cover, sum-off_phase, paid_in_off, paid_out_off, created_off,
  paid_in-deposits, paid_out-withdrawals, outgoing-change,
}

abbrev pub is_use_note : ClientAction → Bool
is_use_note (use_note _ _ _) = true
is_use_note _ = false

-- The notes that a plan uses, and what is true of them and of the amounts.
pub record IsBalanced (state : State) (p : Plan) : Type 0 where
  pub used : List Note
  pub reported : p.spent ≡ map (λ n. n.id) used
  pub uses : keep is_use_note p.actions ≡ spend_actions used
  pub held : (f : Note → ℕ) → sum_by f used ≤ sum_by f state.notes
  pub spendable : All IsSpendable used
  pub balanced :
      (t : Felt)
      → sum_by (paid_in t) p.actions + worth t used
        ≡ sum_by (created t) p.actions + sum_by (paid_out t) p.actions

keep-off_phase :
    (k : ℕ) → k ≢ 4 → (acts : List ClientAction) → All (InPhase k) acts → keep is_use_note acts ≡ []
keep-off_phase k n [] h = refl
keep-off_phase k n (a ∷ acts) h = ground (arith, keep-off_phase k n acts h.1)

keep-spend_actions : (ns : List Note) → keep is_use_note (spend_actions ns) ≡ spend_actions ns
keep-spend_actions [] = refl
keep-spend_actions (n ∷ ns) = ground (arith, keep-spend_actions ns)

module _ (x : External) (intent : Intent) (state : State) (p : Plan)
    (parts : Parts x intent state p) where
  -- The seven lists of actions, summed.
  sum-actions :
      (f : ClientAction → ℕ)
      → sum_by f p.actions
        ≡ sum_by f parts.account
          + (sum_by f parts.build.open_channels
              + (sum_by f parts.build.open_subchannels
                  + (sum_by f (deposit_actions intent.deposits)
                      + (sum_by f (spend_actions parts.spends)
                          + (sum_by f parts.build.create_notes + sum_by f parts.withdrawals)))))
  unfolding assemble
  sum-actions f = rw parts.actions_eq (simp sum_by-append)

  module _ (f : ClientAction → ℕ) (j : ℕ)
      (off : (a : ClientAction) → rank (phase a) ≢ j → f a ≡ 0) where
    -- An amount of a late phase is found in the last four lists only.
    sum_late :
        3 ≤ j
        → sum_by f p.actions
          ≡ sum_by f (deposit_actions intent.deposits)
            + (sum_by f (spend_actions parts.spends)
                + (sum_by f parts.build.create_notes + sum_by f parts.withdrawals))
    sum_late h =
        let shaped = Parts-IsShaped x intent state p parts in
        omega (
          arith,
          sum-actions f,
          sum-off_phase f j 0 off (omega arith) parts.account
              (Started-InPhase x intent state parts.account parts.start parts.started),
          sum-off_phase f j 1 off (omega arith) parts.build.open_channels shaped.channel_phase,
          sum-off_phase f j 2 off (omega arith) parts.build.open_subchannels
              shaped.subchannel_phase,
        )

    off_deposits : j ≢ 3 → sum_by f (deposit_actions intent.deposits) ≡ 0
    off_deposits h = sum-off_phase f j 3 off (λ e. h (sym e)) _ (deposits-InPhase intent.deposits)

    off_spends : j ≢ 4 → sum_by f (spend_actions parts.spends) ≡ 0
    off_spends h = sum-off_phase f j 4 off (λ e. h (sym e)) _ (spends-InPhase parts.spends)

    off_notes : j ≢ 5 → sum_by f parts.build.create_notes ≡ 0
    off_notes h =
        sum-off_phase f j 5 off (λ e. h (sym e)) _
          (Parts-IsShaped x intent state p parts).note_phase

    off_withdrawals : j ≢ 6 → sum_by f parts.withdrawals ≡ 0
    off_withdrawals h =
        sum-off_phase f j 6 off (λ e. h (sym e)) _
          (Withdraws-InPhase intent.withdrawals parts.withdrawals parts.withdraws)

  start-created : (t : Felt) → sum_by (created t) parts.start.create_notes ≡ 0
  start-created t = go parts.started
    where
      go :
          Started x intent state parts.account parts.start
          → sum_by (created t) parts.start.create_notes ≡ 0
      go (inl (_, _, e)) = rw e refl
      go (inr (_, _, _, s)) = Steps-created t parts.start s

  module _ (t : Felt) where
    actions-paid_in : sum_by (paid_in t) p.actions ≡ deposited t intent.deposits
    actions-paid_in = omega (
      arith,
      sum_late (paid_in t) 3 (paid_in_off t) (omega arith),
      paid_in-deposits t intent.deposits,
      off_spends (paid_in t) 3 (paid_in_off t) (omega arith),
      off_notes (paid_in t) 3 (paid_in_off t) (omega arith),
      off_withdrawals (paid_in t) 3 (paid_in_off t) (omega arith),
    )

    actions-paid_out : sum_by (paid_out t) p.actions ≡ outgoing t intent.withdrawals
    actions-paid_out = omega (
      arith,
      sum_late (paid_out t) 6 (paid_out_off t) (omega arith),
      paid_out-withdrawals t intent.withdrawals parts.withdrawals parts.withdraws,
      off_spends (paid_out t) 6 (paid_out_off t) (omega arith),
      off_notes (paid_out t) 6 (paid_out_off t) (omega arith),
      off_deposits (paid_out t) 6 (paid_out_off t) (omega arith),
    )

    actions-created :
        sum_by (created t) p.actions ≡ outgoing t (new_notes intent state parts.change)
    actions-created = omega (
      arith,
      sum_late (created t) 5 (created_off t) (omega arith),
      Steps-created t parts.build parts.steps,
      start-created t,
      off_spends (created t) 5 (created_off t) (omega arith),
      off_withdrawals (created t) 5 (created_off t) (omega arith),
      off_deposits (created t) 5 (created_off t) (omega arith),
    )

  Parts-uses : keep is_use_note p.actions ≡ spend_actions parts.spends
  unfolding assemble
  Parts-uses =
      let shaped = Parts-IsShaped x intent state p parts in
      let b = parts.build in
      rw parts.actions_eq (
        simp (
          keep-append,
          keep-off_phase 0 (omega arith) parts.account
              (Started-InPhase x intent state parts.account parts.start parts.started),
          keep-off_phase 1 (omega arith) b.open_channels shaped.channel_phase,
          keep-off_phase 2 (omega arith) b.open_subchannels shaped.subchannel_phase,
          keep-off_phase 3 (omega arith) (deposit_actions intent.deposits)
              (deposits-InPhase intent.deposits),
          keep-spend_actions parts.spends,
          keep-off_phase 5 (omega arith) b.create_notes shaped.note_phase,
          keep-off_phase 6 (omega arith) parts.withdrawals
              (Withdraws-InPhase intent.withdrawals parts.withdrawals parts.withdraws),
          append-nil,
        ))

  Parts-IsBalanced : InRange intent state.notes → IsBalanced state p
  Parts-IsBalanced range =
      let (m, e, f) = settle-cover intent state parts.spends parts.change parts.settled in
      let sorted = balances-IsSorted intent m e in
      let user = state.user in
      record {
        used = parts.spends;
        reported = parts.spent_eq;
        uses = Parts-uses;
        held = cover-le state.notes m parts.spends parts.change sorted f;
        spendable = cover-IsSpendable state.notes m [] parts.spends [] parts.change tt f;
        balanced = λ t. omega (
          arith,
          actions-paid_in t,
          actions-paid_out t,
          actions-created t,
          settle-worth intent state.notes range m parts.spends parts.change e f t,
          outgoing-append t intent.transfers intent.withdrawals,
          outgoing-append t intent.transfers (map (λ c. (user, c.0, c.1)) parts.change),
          outgoing-change t user parts.change
              (cover-IsSorted state.notes m [] parts.spends [] parts.change tt f),
        );
      }

-- Let every sum be one that an `i128` can hold: for each token, its deposits together with all the
-- notes held are below 2^127, and what flows out of it is at most 2^127. Whenever `plan` then
-- succeeds, there are notes `used`, the ones that the plan reports and that its UseNote actions
-- name, in the same order. None is used more often than the state holds it, none is open or empty.
-- And for each token, what is deposited and what the used notes are worth is exactly what the new
-- notes and the withdrawals hold.
pub plan-IsBalanced :
    (x : External) {R : Type 0} (rng : Randomness R) (fuel : ℕ) (intent : Intent) (state : State)
    (r r' : R) (p : Plan)
    → InRange intent state.notes
    → plan x rng fuel intent state r ≡ ok (p, r')
    → IsBalanced state p
plan-IsBalanced x rng fuel intent state r r' p range e =
    Parts-IsBalanced x intent state p (plan-Parts x rng fuel intent state r r' p e) range
