-- ===== src/Strk20/Crypto.antt =====
-- Decryption of channels, subchannels and notes (crates/strk20/src/crypto.rs).
pub mod Notes
use strkd.Prelude.{
  ℕ, ◌+◌, ◌-◌, ◌/◌, ◌%◌, ◌^◌, Bool, true, false, Option, none, some, ◌==◌, if◌then◌else◌,
}
use strkd.Prelude.Result.{Result, ok, err, ◌>>=◌}
use strkd.Felt.{Felt, External}
use strkd.Strk20.Error.{Error, not_on_curve}
use strkd.Strk20.Hashes

pub record EncChannelInfo : Type 0 where
  pub ephemeral_pubkey : Felt
  pub enc_channel_key : Felt
  pub enc_sender_addr : Felt

pub record ChannelInfo : Type 0 where
  pub key : Felt
  pub sender : Felt

pub record EncSubchannelInfo : Type 0 where
  pub salt : Felt
  pub enc_token : Felt

pub record EncOutgoingChannelInfo : Type 0 where
  pub salt : Felt
  pub enc_recipient_addr : Felt

pub record NoteValue : Type 0 where
  pub amount : ℕ
  pub salt : ℕ
  pub is_open : Bool

abbrev pub open_note_salt : ℕ
open_note_salt = 1

-- The number of values of a `u128`.
abbrev pub u128_mod : ℕ
u128_mod = 2 ^ 128

-- The high and the low 16 of the 32 bytes of a felt.
abbrev pub split_u128s : Felt → ℕ × ℕ
split_u128s value = (value / u128_mod, value % u128_mod)

-- `a.wrapping_sub(b)` and `a.wrapping_add(b)` on `u128`.
abbrev wrapping_sub : ℕ → ℕ → ℕ
wrapping_sub a b = (a + u128_mod - b) % u128_mod

abbrev wrapping_add : ℕ → ℕ → ℕ
wrapping_add a b = (a + b) % u128_mod

module _ (x : External) where
  unfoldable pub public_key : Felt → Felt
  public_key sk = (x.point_mul x.generator sk).0

  unfoldable pub shared_x : Felt → Felt → Result Error Felt
  shared_x sk public_x = elim (x.new_from_x public_x false) [
    | none ↦ err (not_on_curve public_x)
    | some point ↦ ok (x.point_mul point sk).0
  ]

  unfoldable pub decrypt_channel_info : EncChannelInfo → Felt → Result Error ChannelInfo
  decrypt_channel_info encrypted recipient_private_key = do
    shared ← shared_x recipient_private_key encrypted.ephemeral_pubkey
    ok (record {
      key = x.felt_sub encrypted.enc_channel_key (Hashes.enc_channel_key_hash x shared);
      sender = x.felt_sub encrypted.enc_sender_addr (Hashes.enc_sender_addr_hash x shared);
    })

  unfoldable pub decrypt_subchannel_token : EncSubchannelInfo → Felt → ℕ → Felt
  decrypt_subchannel_token encrypted channel_key index =
      x.felt_sub encrypted.enc_token (Hashes.enc_token_hash x channel_key index encrypted.salt)

  unfoldable pub decrypt_outgoing_recipient : EncOutgoingChannelInfo → Felt → Felt → ℕ → Felt
  decrypt_outgoing_recipient encrypted sender_addr sender_private_key index =
      x.felt_sub encrypted.enc_recipient_addr
        (Hashes.enc_recipient_addr_hash x sender_addr sender_private_key index encrypted.salt)

  -- `Felt::from(1u128 << 127) * Felt::TWO`
  two_pow_128 : Felt
  two_pow_128 = x.felt_mul (2 ^ 127) 2

  -- The low 128 bits of the amount hash.
  pad : Felt → Felt → ℕ → ℕ → ℕ
  pad channel_key token index salt =
      (split_u128s (Hashes.enc_amount_hash x channel_key token index salt)).1

  unfoldable pub decrypt_note_value : Felt → Felt → Felt → ℕ → Option NoteValue
  unfolding pad
  decrypt_note_value packed_value channel_key token index =
      let (salt, enc_amount) = split_u128s packed_value in
      if packed_value == 0
      then none
      else if salt == open_note_salt
      then some (record { amount = enc_amount; salt = salt; is_open = true })
      else some (record {
        amount = wrapping_sub enc_amount (pad channel_key token index salt);
        salt = salt;
        is_open = false;
      })

  unfoldable pub encrypt_note_value : ℕ → ℕ → Felt → Felt → ℕ → Felt
  unfolding pad two_pow_128
  encrypt_note_value amount salt channel_key token index =
      let enc_amount = wrapping_add (pad channel_key token index salt) amount in
      x.felt_add (x.felt_mul salt two_pow_128) enc_amount
