-- ===== src/Strk20/Build.antt =====
-- Channels, subchannels and notes of a batch: the loop over the new notes in `plan`
-- (crates/strk20/src/planner.rs).
pub mod Steps
pub mod Indices
pub mod Openings
use strkd.Prelude.{
  ℕ, ◌+◌, ◌%◌, ◌^◌, Bool, true, false, Option, none, some, List, [], ◌∷◌, ◌++◌, length,
}
use strkd.Prelude.Map.{BTreeMap, lookup, insert}
use strkd.Felt.{Felt}
use strkd.Strk20.Error.{error, panic, not_registered}
use strkd.Strk20.Actions.{ClientAction, open_channel, open_subchannel, create_enc_note}
use strkd.Strk20.Discovery.{Subchannel, OutgoingChannel, u32_limit}
use strkd.Strk20.Intent.{Randomness}
use strkd.Strk20.Random.{M, ◌>>=◌, pure, raise, draw, note_salt}

-- The variables that the loop mutates.
pub record Build : Type 0 where
  pub channels : BTreeMap OutgoingChannel
  pub next_channel_index : ℕ
  pub open_channels : List ClientAction
  pub open_subchannels : List ClientAction
  pub create_notes : List ClientAction

-- `channel` is opened with the two draws.
unfoldable pub opened : Build → Felt → OutgoingChannel → Felt → Felt → Build
opened b recipient channel random salt = record b {
  channels = insert recipient (record channel { is_open = true }) b.channels;
  next_channel_index = (b.next_channel_index + 1) % u32_limit;
  open_channels = b.open_channels ++ (open_channel recipient b.next_channel_index random salt ∷ []);
}

abbrev pub next_sub : OutgoingChannel → ℕ
next_sub channel = length channel.subchannels % u32_limit

abbrev pub fresh_subchannel : OutgoingChannel → Subchannel
fresh_subchannel channel = record { index = next_sub channel; next_note_index = 0 }

-- A subchannel for `token` is opened on `channel`.
unfoldable pub sub_opened : Build → Felt → Felt → OutgoingChannel → Felt → Build
sub_opened b recipient token channel salt = record b {
  channels =
      insert recipient
        (record channel {
          subchannels = insert token (fresh_subchannel channel) channel.subchannels;
        })
        b.channels;
  open_subchannels =
      b.open_subchannels
      ++ (open_subchannel recipient channel.recipient_public_key channel.key (next_sub channel)
            token salt
          ∷ []);
}

-- The note is created on `sub`, whose next index moves on.
unfoldable pub noted : Build → Felt → Felt → ℕ → OutgoingChannel → Subchannel → ℕ → Build
noted b recipient token amount channel sub salt = record b {
  channels =
      insert recipient
        (record channel {
          subchannels =
              insert token (record sub { next_note_index = (sub.next_note_index + 1) % u32_limit })
                channel.subchannels;
        })
        b.channels;
  create_notes =
      b.create_notes
      ++ (create_enc_note recipient channel.recipient_public_key token amount sub.next_note_index
            salt
          ∷ []);
}

module _ {R : Type 0} (rng : Randomness R) where
  unfoldable pub open_fresh : Build → Felt → OutgoingChannel → M R Build
  open_fresh b recipient channel = do
    random ← draw rng.felt
    salt ← draw rng.felt
    pure (opened b recipient channel random salt)

  unfoldable pub ensure_channel : Build → Felt → M R Build
  ensure_channel b recipient = elim (lookup recipient b.channels) [
    | none ↦ raise (error (not_registered recipient))
    | some channel ↦ elim channel.is_open [ true ↦ pure b | false ↦ open_fresh b recipient channel ]
  ]

  unfoldable pub open_fresh_sub : Build → Felt → Felt → OutgoingChannel → M R Build
  open_fresh_sub b recipient token channel = do
    salt ← draw rng.felt
    pure (sub_opened b recipient token channel salt)

  unfoldable pub ensure_subchannel : Build → Felt → Felt → OutgoingChannel → M R Build
  ensure_subchannel b recipient token channel = elim (lookup token channel.subchannels) [
    | some sub ↦ pure b
    | none ↦ open_fresh_sub b recipient token channel
  ]

  unfoldable pub note_fresh : ℕ → Build → Felt → Felt → ℕ → OutgoingChannel → Subchannel → M R Build
  note_fresh fuel b recipient token amount channel sub = do
    salt ← note_salt rng fuel
    pure (noted b recipient token amount channel sub salt)

  -- `create_notes.push(...)` and the step of the subchannel that `ensure_subchannel` left.
  unfoldable pub create_note : ℕ → Build → Felt → Felt → ℕ → M R Build
  create_note fuel b recipient token amount = elim (lookup recipient b.channels) [
    | none ↦ raise panic
    | some channel ↦ elim (lookup token channel.subchannels) [
      | none ↦ raise panic
      | some sub ↦ note_fresh fuel b recipient token amount channel sub
    ]
  ]

  -- The channel is read again after `ensure_channel` ("ensured above").
  unfoldable pub on_channel : Build → Felt → Felt → M R Build
  on_channel b recipient token = elim (lookup recipient b.channels) [
    | none ↦ raise panic
    | some channel ↦ ensure_subchannel b recipient token channel
  ]

  -- One round of the loop.
  unfoldable pub place_note : ℕ → Build → Felt × Felt × ℕ → M R Build
  place_note fuel b (recipient, token, amount) = do
    b₁ ← ensure_channel b recipient
    b₂ ← on_channel b₁ recipient token
    create_note fuel b₂ recipient token amount

  unfoldable pub place_notes : ℕ → Build → List (Felt × Felt × ℕ) → M R Build
  place_notes fuel b [] = pure b
  place_notes fuel b (n ∷ ns) = do b₁ ← place_note fuel b n; place_notes fuel b₁ ns
