-- ===== src/Strk20/Hashes.antt =====
-- The pool's domain-separated hashes (crates/strk20/src/hashes.rs), over the external Poseidon.
use strkd.Prelude.{ℕ, String, List, [], ◌∷◌}
use strkd.Felt.{Felt, External, as_bytes, from_bytes_be}

abbrev channel_marker_tag : String
channel_marker_tag = "CHANNEL_MARKER_TAG:V1"

abbrev channel_key_tag : String
channel_key_tag = "CHANNEL_KEY_TAG:V1"

abbrev subchannel_marker_tag : String
subchannel_marker_tag = "SUBCHANNEL_MARKER_TAG:V1"

abbrev subchannel_id_tag : String
subchannel_id_tag = "SUBCHANNEL_ID_TAG:V1"

abbrev nullifier_tag : String
nullifier_tag = "NULLIFIER_TAG:V1"

abbrev enc_channel_key_tag : String
enc_channel_key_tag = "ENC_CHANNEL_KEY_TAG:V1"

abbrev enc_sender_addr_tag : String
enc_sender_addr_tag = "ENC_SENDER_ADDR_TAG:V1"

abbrev note_id_tag : String
note_id_tag = "NOTE_ID_TAG:V1"

abbrev enc_amount_tag : String
enc_amount_tag = "ENC_AMOUNT_TAG:V1"

abbrev enc_token_tag : String
enc_token_tag = "ENC_TOKEN_TAG:V1"

abbrev enc_private_key_tag : String
enc_private_key_tag = "ENC_PRIVATE_KEY_TAG:V1"

abbrev enc_user_addr_tag : String
enc_user_addr_tag = "ENC_USER_ADDR_TAG:V1"

abbrev enc_recipient_addr_tag : String
enc_recipient_addr_tag = "ENC_RECIPIENT_ADDR_TAG:V1"

abbrev outgoing_channel_id_tag : String
outgoing_channel_id_tag = "OUTGOING_CHANNEL_ID_TAG:V1"

abbrev identity_key_tag : String
identity_key_tag = "IDENTITY_KEY_TAG:V1"

-- The `debug_assert` on the length holds for the tags above.
unfoldable pub short_string : String → Felt
short_string s = from_bytes_be 0 (as_bytes s)

module _ (x : External) where
  unfoldable pub hash : String → List Felt → Felt
  unfolding short_string
  hash tag inputs = x.poseidon (short_string tag ∷ inputs)

  unfoldable pub identity_key : Felt → Felt → Felt → Felt
  unfolding hash
  identity_key user_addr user_private_key contract_address =
      hash identity_key_tag (user_addr ∷ user_private_key ∷ contract_address ∷ [])

  unfoldable pub enc_private_key_hash : Felt → Felt
  unfolding hash
  enc_private_key_hash shared_x = hash enc_private_key_tag (shared_x ∷ [])

  unfoldable pub enc_user_addr_hash : Felt → Felt
  unfolding hash
  enc_user_addr_hash shared_x = hash enc_user_addr_tag (shared_x ∷ [])

  unfoldable pub enc_token_hash : Felt → ℕ → Felt → Felt
  unfolding hash
  enc_token_hash channel_key index salt = hash enc_token_tag (channel_key ∷ index ∷ 0 ∷ salt ∷ [])

  unfoldable pub enc_channel_key_hash : Felt → Felt
  unfolding hash
  enc_channel_key_hash shared_x = hash enc_channel_key_tag (shared_x ∷ [])

  unfoldable pub enc_sender_addr_hash : Felt → Felt
  unfolding hash
  enc_sender_addr_hash shared_x = hash enc_sender_addr_tag (shared_x ∷ [])

  unfoldable pub enc_recipient_addr_hash : Felt → Felt → ℕ → Felt → Felt
  unfolding hash
  enc_recipient_addr_hash sender_addr sender_private_key index salt =
      hash enc_recipient_addr_tag (sender_addr ∷ sender_private_key ∷ index ∷ 0 ∷ salt ∷ [])

  unfoldable pub channel_key : Felt → Felt → Felt → Felt → Felt
  unfolding hash
  channel_key sender_addr sender_private_key recipient_addr recipient_public_key =
      hash channel_key_tag
        (sender_addr ∷ sender_private_key ∷ recipient_addr ∷ recipient_public_key ∷ [])

  unfoldable pub outgoing_channel_id : Felt → Felt → ℕ → Felt
  unfolding hash
  outgoing_channel_id sender_addr sender_private_key index =
      hash outgoing_channel_id_tag (sender_addr ∷ sender_private_key ∷ index ∷ 0 ∷ [])

  unfoldable pub channel_marker : Felt → Felt → Felt → Felt → Felt
  unfolding hash
  channel_marker key sender_addr recipient_addr recipient_public_key =
      hash channel_marker_tag (key ∷ sender_addr ∷ recipient_addr ∷ recipient_public_key ∷ [])

  unfoldable pub subchannel_id : Felt → ℕ → Felt
  unfolding hash
  subchannel_id key index = hash subchannel_id_tag (key ∷ index ∷ 0 ∷ [])

  unfoldable pub subchannel_marker : Felt → Felt → Felt → Felt → Felt
  unfolding hash
  subchannel_marker key recipient_addr recipient_public_key token =
      hash subchannel_marker_tag (key ∷ recipient_addr ∷ recipient_public_key ∷ token ∷ [])

  unfoldable pub note_id : Felt → Felt → ℕ → Felt
  unfolding hash
  note_id key token index = hash note_id_tag (key ∷ token ∷ index ∷ 0 ∷ [])

  unfoldable pub enc_amount_hash : Felt → Felt → ℕ → Felt → Felt
  unfolding hash
  enc_amount_hash key token index salt = hash enc_amount_tag (key ∷ token ∷ index ∷ 0 ∷ salt ∷ [])

  unfoldable pub nullifier : Felt → Felt → ℕ → Felt → Felt
  unfolding hash
  nullifier key token index owner_private_key =
      hash nullifier_tag (key ∷ token ∷ index ∷ 0 ∷ owner_private_key ∷ [])
