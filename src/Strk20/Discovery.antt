-- ===== src/Strk20/Discovery.antt =====
-- Reading a user's private state from the pool (crates/strk20/src/discovery.rs). `PoolReader::call`
-- is the parameter `call`: a view function of the pool at one block, by its selector.
pub mod Outgoing
use strkd.Prelude.{
  ℕ, zero, suc, ◌+◌, ◌^◌, String, Bool, true, false, not, Option, none, some, List, [], ◌∷◌, ◌++◌,
  ltb, ◌==◌, if◌then◌else◌,
}
use strkd.Prelude.Result.{Result, ok, err, ◌>>=◌, map_err}
use strkd.Prelude.Map.{BTreeMap, insert}
use strkd.Felt.{Felt, External}
use strkd.WalletCore.Tx.{get_selector_from_name}
use strkd.Strk20.Error.{Error, not_registered, read, Failure, error, out_of_fuel}
use strkd.Strk20.Hashes
use strkd.Strk20.Crypto.{
  EncChannelInfo, ChannelInfo, EncSubchannelInfo, decrypt_channel_info, decrypt_subchannel_token,
  decrypt_note_value,
}

pub record Note : Type 0 where
  pub id : Felt
  pub token : Felt
  pub amount : ℕ
  pub channel_key : Felt
  pub index : ℕ
  pub sender : Felt
  pub is_open : Bool

pub record Subchannel : Type 0 where
  pub index : ℕ
  pub next_note_index : ℕ

pub record OutgoingChannel : Type 0 where
  pub recipient : Felt
  pub recipient_public_key : Felt
  pub key : Felt
  pub is_open : Bool
  pub subchannels : BTreeMap Subchannel

abbrev pub u32_limit : ℕ
u32_limit = 2 ^ 32

abbrev pub u64_limit : ℕ
u64_limit = 2 ^ 64

abbrev pub Reader : Type 0
Reader = Felt → List Felt → Result Error (List Felt)

-- `tokens.contains(&token)`
unfoldable pub contains : List Felt → Felt → Bool
contains [] t = false
contains (u ∷ us) t = let rest = contains us t in if u == t then true else rest

-- Whether the filter `tokens` lets `token` through; the empty filter lets all through.
unfoldable pub wanted : List Felt → Felt → Bool
wanted [] t = true
wanted (u ∷ us) t = contains (u ∷ us) t

module _ (x : External) (call : Reader) where
  -- `view` checks the length of the output; the refusals' text, which names the view function and
  -- the two lengths, is shortened.
  first : List Felt → Result Error Felt
  first (a ∷ _) = ok a
  first [] = err (read "too few felts")

  first_two : List Felt → Result Error (Felt × Felt)
  first_two (a ∷ b ∷ _) = ok (a, b)
  first_two _ = err (read "too few felts")

  first_three : List Felt → Result Error (Felt × Felt × Felt)
  first_three (a ∷ b ∷ c ∷ _) = ok (a, b, c)
  first_three _ = err (read "too few felts")

  abbrev view : String → List Felt → Result Error (List Felt)
  view name calldata = call (get_selector_from_name x name) calldata

  unfoldable pub public_key : Felt → Result Error (Option Felt)
  unfolding first
  public_key user = do
    pk ← view "get_public_key" (user ∷ []) >>= first
    ok (if pk == 0 then none else some pk)

  unfoldable pub flag : String → Felt → Result Error Bool
  unfolding first
  flag name arg = do v ← view name (arg ∷ []) >>= first; ok (not (v == 0))

  unfoldable pub note_packed_value : Felt → Result Error Felt
  unfolding first
  note_packed_value note_id = view "get_note" (note_id ∷ []) >>= first

  unfoldable pub subchannel_info : Felt → Result Error EncSubchannelInfo
  unfolding first_two
  subchannel_info id = do
    out ← view "get_subchannel_info" (id ∷ []) >>= first_two
    ok (record { salt = out.0; enc_token = out.1 })

  unfoldable pub channel_info : Felt → Felt → Result Error EncChannelInfo
  unfolding first_three
  channel_info user c = do
    out ← view "get_channel_info" (user ∷ c ∷ []) >>= first_three
    ok (record { ephemeral_pubkey = out.0; enc_channel_key = out.1; enc_sender_addr = out.2 })

  abbrev index_overflow : Error
  index_overflow = read "index overflow"

  -- The loop over the notes of one subchannel. `left` is how many indices remain below 2^32,
  -- where `index_u32` refuses the next.
  unfoldable pub scan_notes : Felt → ChannelInfo → Felt → ℕ → ℕ → Result Error (List Note)
  scan_notes user_sk channel token zero i = err index_overflow
  scan_notes user_sk channel token (suc left) i = do
    let id = Hashes.note_id x channel.key token i
    packed ← note_packed_value id
    elim (decrypt_note_value x packed channel.key token i) [
      | none ↦ ok []
      | some value ↦ do
        spent ← flag "nullifier_exists" (Hashes.nullifier x channel.key token i user_sk)
        rest ← scan_notes user_sk channel token left (i + 1)
        ok (
            if spent
            then rest
            else record {
              id = id;
              token = token;
              amount = value.amount;
              channel_key = channel.key;
              index = i;
              sender = channel.sender;
              is_open = value.is_open;
            }
              ∷ rest)
    ]

  -- The loop over the subchannels of one channel.
  unfoldable pub scan_subchannels :
      Felt → List Felt → ChannelInfo → ℕ → ℕ → Result Error (List Note)
  scan_subchannels user_sk tokens channel zero k = err index_overflow
  scan_subchannels user_sk tokens channel (suc left) k = do
    sub ← subchannel_info (Hashes.subchannel_id x channel.key k)
    elim (sub.salt == 0) [
      | true ↦ ok []
      | false ↦ do
        let token = decrypt_subchannel_token x sub channel.key k
        notes ← if wanted tokens token then scan_notes user_sk channel token u32_limit 0 else ok []
        rest ← scan_subchannels user_sk tokens channel left (k + 1)
        ok (notes ++ rest)
    ]

  -- The loop over the incoming channels `c`, `c + 1`, ... of which `n` remain.
  unfoldable pub scan_channels : Felt → Felt → List Felt → ℕ → ℕ → Result Error (List Note)
  scan_channels user user_sk tokens zero c = ok []
  scan_channels user user_sk tokens (suc n) c = do
    enc ← channel_info user c
    channel ← decrypt_channel_info x enc user_sk
    notes ← scan_subchannels user_sk tokens channel u32_limit 0
    rest ← scan_channels user user_sk tokens n (c + 1)
    ok (notes ++ rest)

  unfoldable pub discover_notes : Felt → Felt → List Felt → Result Error (List Note)
  unfolding first
  discover_notes user user_sk tokens = do
    count ← view "get_num_of_channels" (user ∷ []) >>= first
    if ltb count u64_limit
        then scan_channels user user_sk tokens count 0
        else err (read "channel count overflow")

  -- `while note_packed_value(...) != 0 { next += 1 }`: where 2^32 notes are there, a release build
  -- wraps and goes round again.
  unfoldable pub count_notes : Felt → Felt → ℕ → ℕ → Result Failure ℕ
  count_notes key token zero next = err out_of_fuel
  count_notes key token (suc left) next = do
    packed ← map_err error (note_packed_value (Hashes.note_id x key token next))
    elim (packed == 0) [ true ↦ ok next | false ↦ count_notes key token left (next + 1) ]

  unfoldable pub scan_outgoing :
      Felt → ℕ → ℕ → BTreeMap Subchannel → Result Failure (BTreeMap Subchannel)
  scan_outgoing key zero k subchannels = err (error index_overflow)
  scan_outgoing key (suc left) k subchannels = do
    sub ← map_err error (subchannel_info (Hashes.subchannel_id x key k))
    elim (sub.salt == 0) [
      | true ↦ ok subchannels
      | false ↦ do
        let token = decrypt_subchannel_token x sub key k
        next ← count_notes key token u32_limit 0
        scan_outgoing key left (k + 1)
            (insert token (record { index = k; next_note_index = next }) subchannels)
    ]

  some_or_fail : Felt → Option Felt → Result Error Felt
  some_or_fail recipient none = err (not_registered recipient)
  some_or_fail recipient (some pk) = ok pk

  unfoldable pub discover_channel : Felt → Felt → Felt → Result Failure OutgoingChannel
  unfolding some_or_fail
  discover_channel user user_sk recipient = do
    recipient_public_key ← map_err error (public_key recipient >>= some_or_fail recipient)
    let key = Hashes.channel_key x user user_sk recipient recipient_public_key
    let marker = Hashes.channel_marker x key user recipient recipient_public_key
    is_open ← map_err error (flag "channel_exists" marker)
    subchannels ← if is_open then scan_outgoing key u32_limit 0 [] else ok []
    ok (record {
      recipient = recipient;
      recipient_public_key = recipient_public_key;
      key = key;
      is_open = is_open;
      subchannels = subchannels;
    })

  unfoldable pub count_outgoing : Felt → Felt → ℕ → ℕ → Result Error ℕ
  unfolding first_two
  count_outgoing user user_sk zero s = err index_overflow
  count_outgoing user user_sk (suc left) s = do
    let id = Hashes.outgoing_channel_id x user user_sk s
    out ← view "get_outgoing_channel_info" (id ∷ []) >>= first_two
    elim (out.0 == 0) [ true ↦ ok s | false ↦ count_outgoing user user_sk left (s + 1) ]

  -- The index that the user's next channel takes.
  unfoldable pub outgoing_channel_count : Felt → Felt → Result Error ℕ
  unfolding count_outgoing
  outgoing_channel_count user user_sk = count_outgoing user user_sk u32_limit 0
