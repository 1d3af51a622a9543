-- ===== src/Strk20/Planner/Notes.antt =====
-- The notes and the channel openings of a plan (crates/strk20/src/planner.rs).
use mathlib.Core.List.{append-nil}
use strkd.Prelude.{
  ℕ, ◌≡◌, ◌≢◌, refl, sym, ◌∙◌, subst, inl, inr, List, [], ◌∷◌, arith, All, All-append, keep,
  keep-append, length, ltb, if◌then◌else◌,
}
use strkd.Prelude.Map.{insert}
use strkd.Prelude.Result.{ok}
use strkd.Felt.{Felt, External}
use strkd.Strk20.Actions.{ClientAction, create_enc_note}
use strkd.Strk20.Intent.{Intent, State, Plan, user_linkage, Randomness}
use strkd.Strk20.Build.{Build}
use strkd.Strk20.Build.Steps.{Steps, Steps-trans}
use strkd.Strk20.Build.Indices.{
  InPhase, IsSalted, note_indices, note_indices-append, note_count, next_index, count_up,
  Steps-note_indices,
}
use strkd.Strk20.Build.Openings.{Openings, Steps-Openings}
use strkd.Strk20.Planner.{
  new_notes, initial, registers, self_channel, assemble, deposit_actions, spend_actions,
  is_open_channel, warnings_of, plan,
}
use strkd.Strk20.Planner.Parts.{Started, Parts, plan-Parts}
use strkd.Strk20.Planner.Phases.{
  Parts-IsShaped, Started-InPhase, deposits-InPhase, spends-InPhase, Withdraws-InPhase,
}

-- What the new notes build on: the state, with the self-channel reset where the batch registers.
abbrev pub start_build : External → Intent → State → Build
start_build x intent state = record (initial state) {
  channels =
      if registers intent state
      then insert state.user (self_channel x state) state.channels
      else state.channels;
}

note_indices-off_phase :
    (r t : Felt) (k : ℕ)
    → k ≢ 5
    → (acts : List ClientAction) → All (InPhase k) acts
    → note_indices r t acts ≡ []
note_indices-off_phase r t k n [] h = refl
note_indices-off_phase r t k n (create_enc_note _ _ _ _ _ _ ∷ acts) h = absurd (ground arith)
note_indices-off_phase r t k n (_ ∷ acts) h = note_indices-off_phase r t k n acts h.1

opens-off_phase :
    (k : ℕ)
    → k ≢ 1
    → (acts : List ClientAction) → All (InPhase k) acts
    → keep is_open_channel acts ≡ []
opens-off_phase k n [] h = refl
opens-off_phase k n (a ∷ acts) h = ground (arith, opens-off_phase k n acts h.1)

opens-InPhase : (acts : List ClientAction) → All (InPhase 1) acts → keep is_open_channel acts ≡ acts
opens-InPhase [] h = refl
opens-InPhase (a ∷ acts) h = ground (arith, opens-InPhase acts h.1)

IsSalted-off_phase :
    (k : ℕ) → k ≢ 5 → (acts : List ClientAction) → All (InPhase k) acts → All IsSalted acts
IsSalted-off_phase k n [] h = tt
IsSalted-off_phase k n (create_enc_note _ _ _ _ _ _ ∷ acts) h = absurd (ground arith)
IsSalted-off_phase k n (_ ∷ acts) h = (tt, IsSalted-off_phase k n acts h.1)

module _ (x : External) (intent : Intent) (state : State) (p : Plan)
    (parts : Parts x intent state p) where
  Parts-Steps : Steps parts.build (start_build x intent state) (new_notes intent state parts.change)
  Parts-Steps = go parts.started
    where
      ns : List (Felt × Felt × ℕ)
      ns = new_notes intent state parts.change

      go :
          Started x intent state parts.account parts.start
          → Steps parts.build (start_build x intent state) ns
      go (inl (e, _, q)) = rw e (subst (λ z. Steps parts.build z ns) q parts.steps)
      go (inr (random, e, _, s)) = rw e (Steps-trans parts.start parts.build ns s refl parts.steps)

  Parts-note_indices :
      (r t : Felt)
      → note_indices r t p.actions
        ≡ count_up
            (note_count r t (new_notes intent state parts.change))
            (next_index r t (start_build x intent state).channels)
  unfolding assemble
  Parts-note_indices r t =
      let shaped = Parts-IsShaped x intent state p parts in
      let b = parts.build in
      rw parts.actions_eq (
        simp
          (
            note_indices-append,
            note_indices-off_phase r t 0 (omega arith) parts.account
                (Started-InPhase x intent state parts.account parts.start parts.started),
            note_indices-off_phase r t 1 (omega arith) b.open_channels shaped.channel_phase,
            note_indices-off_phase r t 2 (omega arith) b.open_subchannels shaped.subchannel_phase,
            note_indices-off_phase r t 3 (omega arith) _ (deposits-InPhase intent.deposits),
            note_indices-off_phase r t 4 (omega arith) _ (spends-InPhase parts.spends),
            note_indices-off_phase r t 6 (omega arith) parts.withdrawals
                (Withdraws-InPhase intent.withdrawals parts.withdrawals parts.withdraws),
            append-nil,
          )
          (Steps-note_indices r t b Parts-Steps))

  Parts-IsSalted : All IsSalted p.actions
  unfolding assemble
  Parts-IsSalted =
      let shaped = Parts-IsShaped x intent state p parts in
      let b = parts.build in
      rw parts.actions_eq (
        All-append IsSalted parts.account _
          (IsSalted-off_phase 0 (omega arith) parts.account
            (Started-InPhase x intent state parts.account parts.start parts.started))
          (All-append IsSalted b.open_channels _
            (IsSalted-off_phase 1 (omega arith) b.open_channels shaped.channel_phase)
            (All-append IsSalted b.open_subchannels _
              (IsSalted-off_phase 2 (omega arith) b.open_subchannels shaped.subchannel_phase)
              (All-append IsSalted (deposit_actions intent.deposits) _
                (IsSalted-off_phase 3 (omega arith) _ (deposits-InPhase intent.deposits))
                (All-append IsSalted (spend_actions parts.spends) _
                  (IsSalted-off_phase 4 (omega arith) _ (spends-InPhase parts.spends))
                  (All-append IsSalted b.create_notes _ shaped.salted (
                    IsSalted-off_phase 6 (omega arith) parts.withdrawals (
                      Withdraws-InPhase intent.withdrawals parts.withdrawals parts.withdraws))))))))

  Parts-opens : keep is_open_channel p.actions ≡ parts.build.open_channels
  unfolding assemble
  Parts-opens =
      let shaped = Parts-IsShaped x intent state p parts in
      let b = parts.build in
      rw parts.actions_eq (
        simp (
          keep-append,
          opens-off_phase 0 (omega arith) parts.account
              (Started-InPhase x intent state parts.account parts.start parts.started),
          opens-InPhase b.open_channels shaped.channel_phase,
          opens-off_phase 2 (omega arith) b.open_subchannels shaped.subchannel_phase,
          opens-off_phase 3 (omega arith) _ (deposits-InPhase intent.deposits),
          opens-off_phase 4 (omega arith) _ (spends-InPhase parts.spends),
          opens-off_phase 5 (omega arith) b.create_notes shaped.note_phase,
          opens-off_phase 6 (omega arith) parts.withdrawals
              (Withdraws-InPhase intent.withdrawals parts.withdrawals parts.withdraws),
          append-nil,
        ))

  Parts-Openings :
      Openings
        (start_build x intent state).channels
        state.outgoing_channels
        (keep is_open_channel p.actions)
  Parts-Openings =
      let (acts, e, o) = Steps-Openings parts.build Parts-Steps in
      let c = (start_build x intent state).channels in
      subst (Openings c state.outgoing_channels) (sym (Parts-opens ∙ e)) o

module _ (x : External) {R : Type 0} (rng : Randomness R) (fuel : ℕ) (intent : Intent)
    (state : State) where
  -- Whenever `plan` succeeds, the notes that it creates for one recipient in one token, in order,
  -- take successive `u32` indices: as many as there are transfers and change entries for the two,
  -- from the next index of the subchannel (0 where it is not there yet). Every created note's salt
  -- is above 1, the salt of open notes.
  pub plan-note_indices :
      (r r' : R) (p : Plan)
      → plan x rng fuel intent state r ≡ ok (p, r')
      → ((recipient t : Felt)
          → note_indices recipient t p.actions
            ≡ count_up
                (note_count recipient t (new_notes intent state p.change))
                (next_index recipient t (start_build x intent state).channels))
        × All IsSalted p.actions
  plan-note_indices r r' p e =
      let parts = plan-Parts x rng fuel intent state r r' p e in
      (
        λ recipient t. rw parts.change_eq (Parts-note_indices x intent state p parts recipient t),
        Parts-IsSalted x intent state p parts,
      )

  -- Whenever `plan` succeeds, its OpenChannel actions go to distinct recipients whose channel was
  -- known and closed, at successive `u32` indices from the user's outgoing-channel count; and the
  -- plan warns of linkage exactly when there are two of them or more.
  pub plan-Openings :
      (r r' : R) (p : Plan)
      → plan x rng fuel intent state r ≡ ok (p, r')
      → Openings
          (start_build x intent state).channels
          state.outgoing_channels
          (keep is_open_channel p.actions)
        × (p.warnings
            ≡ (if ltb 1 (length (keep is_open_channel p.actions)) then user_linkage ∷ [] else []))
  unfolding warnings_of
  plan-Openings r r' p e =
      let parts = plan-Parts x rng fuel intent state r r' p e in
      (Parts-Openings x intent state p parts, parts.warnings_eq)
