-- ===== src/Strk20/Actions.antt =====
-- Client actions and their Cairo serialization (crates/strk20/src/actions.rs).
pub mod Decode
use strkd.Prelude.{ℕ, List, [], ◌∷◌, ◌++◌, length}
use strkd.Felt.{Felt}

pub data ClientAction : Type 0 where
  set_viewing_key : Felt → ClientAction
  -- recipient_addr, index, random, salt
  open_channel : Felt → ℕ → Felt → Felt → ClientAction
  -- recipient_addr, recipient_public_key, channel_key, index, token, salt
  open_subchannel : Felt → Felt → Felt → ℕ → Felt → Felt → ClientAction
  -- recipient_addr, recipient_public_key, token, amount, index, salt
  create_enc_note : Felt → Felt → Felt → ℕ → ℕ → ℕ → ClientAction
  -- token, amount
  deposit : Felt → ℕ → ClientAction
  -- channel_key, token, index
  use_note : Felt → Felt → ℕ → ClientAction
  -- to_addr, token, amount, random
  withdraw : Felt → Felt → ℕ → Felt → ClientAction

pub data Phase : Type 0 where
  account channel subchannel deposits use_notes create_notes withdraws : Phase

-- The discriminants, by which `Phase` is ordered.
abbrev pub rank : Phase → ℕ
rank account = 0
rank channel = 1
rank subchannel = 2
rank deposits = 3
rank use_notes = 4
rank create_notes = 5
rank withdraws = 6

abbrev pub variant : ClientAction → ℕ
variant (set_viewing_key _) = 0
variant (open_channel _ _ _ _) = 1
variant (open_subchannel _ _ _ _ _ _) = 2
variant (create_enc_note _ _ _ _ _ _) = 3
variant (deposit _ _) = 5
variant (use_note _ _ _) = 6
variant (withdraw _ _ _ _) = 7

abbrev pub phase : ClientAction → Phase
phase (set_viewing_key _) = account
phase (open_channel _ _ _ _) = channel
phase (open_subchannel _ _ _ _ _ _) = subchannel
phase (deposit _ _) = deposits
phase (use_note _ _ _) = use_notes
phase (create_enc_note _ _ _ _ _ _) = create_notes
phase (withdraw _ _ _ _) = withdraws

abbrev fields : ClientAction → List Felt
fields (set_viewing_key random) = random ∷ []
fields (open_channel recipient_addr index random salt) = recipient_addr ∷ index ∷ random ∷ salt ∷ []
fields (open_subchannel recipient_addr recipient_public_key channel_key index token salt) =
    recipient_addr ∷ recipient_public_key ∷ channel_key ∷ index ∷ token ∷ salt ∷ []
fields (create_enc_note recipient_addr recipient_public_key token amount index salt) =
    recipient_addr ∷ recipient_public_key ∷ token ∷ amount ∷ index ∷ salt ∷ []
fields (deposit token amount) = token ∷ amount ∷ []
fields (use_note channel_key token index) = channel_key ∷ token ∷ index ∷ []
fields (withdraw to_addr token amount random) = to_addr ∷ token ∷ amount ∷ random ∷ []

-- `serialize` pushes onto `out`.
unfoldable pub serialize : ClientAction → List Felt → List Felt
serialize a out = out ++ (variant a ∷ fields a)

unfoldable pub serialize_all : List ClientAction → List Felt → List Felt
serialize_all [] out = out
serialize_all (a ∷ rest) out = serialize_all rest (serialize a out)

unfoldable pub serialize_actions : List ClientAction → List Felt
serialize_actions actions = serialize_all actions (length actions ∷ [])
