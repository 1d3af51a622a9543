-- ===== src/Strk20/Planner.antt =====
-- `plan`: from an intent to an ordered batch of client actions (crates/strk20/src/planner.rs).
pub mod Parts
pub mod Phases
pub mod Conserves
pub mod Balanced
pub mod Notes
pub mod Total
use strkd.Prelude.{
  ℕ, ◌+◌, Bool, true, false, not, ◌&&◌, List, [], ◌∷◌, ◌++◌, map, length, ltb, if◌then◌else◌, keep,
}
use strkd.Prelude.Map.{BTreeMap, insert}
use strkd.Felt.{Felt, External}
use strkd.Strk20.Actions.{ClientAction, set_viewing_key, open_channel, deposit, use_note, withdraw}
use strkd.Strk20.Hashes
use strkd.Strk20.Crypto
use strkd.Strk20.Discovery.{Note, OutgoingChannel}
use strkd.Strk20.Intent.{Intent, State, Plan, Warning, user_linkage, Randomness}
use strkd.Strk20.Balance.{settle}
use strkd.Strk20.Random.{M, ◌>>=◌, pure, lift, draw}
use strkd.Strk20.Build.{Build, ensure_channel, place_notes}

-- Transfers first, then change to the user.
abbrev pub new_notes : Intent → State → BTreeMap ℕ → List (Felt × Felt × ℕ)
new_notes intent state change = intent.transfers ++ map (λ c. (state.user, c.0, c.1)) change

abbrev pub initial : State → Build
initial state = record {
  channels = state.channels;
  next_channel_index = state.outgoing_channels;
  open_channels = [];
  open_subchannels = [];
  create_notes = [];
}

-- Whether this batch registers the viewing key.
abbrev pub registers : Intent → State → Bool
registers intent state = intent.register && not state.registered

abbrev pub deposit_actions : List (Felt × ℕ) → List ClientAction
deposit_actions = map λ d. deposit d.0 d.1

abbrev pub spend_actions : List Note → List ClientAction
spend_actions = map λ n. use_note n.channel_key n.token n.index

abbrev pub is_open_channel : ClientAction → Bool
is_open_channel (open_channel _ _ _ _) = true
is_open_channel _ = false

unfoldable pub warnings_of : List ClientAction → List Warning
warnings_of actions =
    if ltb 1 (length (keep is_open_channel actions)) then user_linkage ∷ [] else []

-- The actions in the order in which they are emitted.
unfoldable pub assemble :
    Intent → List ClientAction → Build → List Note → List ClientAction → List ClientAction
assemble intent account b spends withdrawals =
    account
    ++ (b.open_channels
        ++ (b.open_subchannels
            ++ (deposit_actions intent.deposits
                ++ (spend_actions spends ++ (b.create_notes ++ withdrawals)))))

module _ (x : External) where
  -- The channel of the user to itself, not yet open.
  unfoldable pub self_channel : State → OutgoingChannel
  self_channel state =
      let pk = Crypto.public_key x state.user_sk in
      record {
        recipient = state.user;
        recipient_public_key = pk;
        key = Hashes.channel_key x state.user state.user_sk state.user pk;
        is_open = false;
        subchannels = [];
      }

  -- The variables before the new notes of a registering batch.
  abbrev pub registered_start : State → Build
  registered_start state = record (initial state) {
    channels = insert state.user (self_channel state) state.channels;
  }

module _ (x : External) {R : Type 0} (rng : Randomness R) where
  -- The account action, and the self-channel, which "can't exist before registration", opened.
  unfoldable pub register_self : State → M R (List ClientAction × Build)
  register_self state = do
    random ← draw rng.felt
    b ← ensure_channel rng (registered_start x state) state.user
    pure (set_viewing_key random ∷ [], b)

  unfoldable pub begin : Intent → State → M R (List ClientAction × Build)
  begin intent state = elim (registers intent state) [
    | false ↦ pure ([], initial state)
    | true ↦ register_self state
  ]

  unfoldable pub withdraw_actions : List (Felt × Felt × ℕ) → M R (List ClientAction)
  withdraw_actions [] = pure []
  withdraw_actions ((to_addr, token, amount) ∷ rest) = do
    random ← draw rng.felt
    acts ← withdraw_actions rest
    pure (withdraw to_addr token amount random ∷ acts)

  -- `fuel` bounds the draws of each note's salt.
  unfoldable pub plan : ℕ → Intent → State → M R Plan
  plan fuel intent state = do
    (spends, change) ← lift (settle intent state)
    (account, b₀) ← begin intent state
    b ← place_notes rng fuel b₀ (new_notes intent state change)
    withdrawals ← withdraw_actions intent.withdrawals
    let actions = assemble intent account b spends withdrawals
    pure (record {
      actions = actions;
      spent = map (λ n. n.id) spends;
      change = change;
      warnings = warnings_of actions;
    })
