-- ===== src/Examples/Planning.antt =====
-- A registering batch, planned: a deposit of one token, a transfer and a withdrawal.
use strkd.Prelude.{
  ◌⊎◌, ℕ, ◌+◌, ◌-◌, ◌<◌, ◌≤◌, ◌≡◌, refl, true, false, some, [], ◌∷◌, ◌++◌, arith, sum_by, keep, All,
}
use strkd.Prelude.Result.{Result, ok, err}
use strkd.Felt.{Felt, External}
use strkd.Strk20.Error.{Failure, insufficient_balance}
use strkd.Strk20.Actions.{
  set_viewing_key, open_channel, open_subchannel, deposit, use_note, create_enc_note, withdraw,
  serialize_actions,
}
use strkd.Strk20.Actions.Decode.{read_span, read_span-serialize_actions}
use strkd.Strk20.Discovery.{Note, OutgoingChannel}
use strkd.Strk20.Intent.{Intent, State, Plan, user_linkage, Randomness}
use strkd.Strk20.Balance.{
  cover_token, available, settle, settle_registered, deposits_nonzero, nonzero, outflows_nonzero,
  balances, add_deposits, signed, sub_outflows, cover, spend, candidates, insert_desc, sort_desc,
}
use strkd.Prelude.Int.{negsuc, ◌-ℤ◌, ◌+ℤ◌, wrap_i128}
use strkd.Prelude.Map.{insert, lookup}
use strkd.Strk20.Build.{
  create_note, ensure_channel, ensure_subchannel, note_fresh, noted, on_channel, open_fresh,
  open_fresh_sub, opened, place_note, place_notes, sub_opened,
}
use strkd.Strk20.Hashes.{hash, short_string}
use strkd.Strk20.Planner.{
  plan, new_notes, is_open_channel, assemble, begin, register_self, self_channel, warnings_of,
  withdraw_actions,
}
use strkd.Strk20.Random.{note_salt}
use strkd.Strk20.Balance.Conservation.{InRange}
use strkd.Strk20.Balance.Greedy.{spendable, Takes, cover_token-greedy}
use strkd.Strk20.Build.Indices.{IsSalted, count_up, note_indices, note_count, next_index}
use strkd.Strk20.Build.Openings.{Openings}
use strkd.Strk20.Planner.Phases.{PhasedFrom, plan-PhasedFrom}
use strkd.Strk20.Planner.Balanced.{IsBalanced, plan-IsBalanced}
use strkd.Strk20.Planner.Notes.{start_build, plan-note_indices, plan-Openings}

-- Toy primitives: any functions will do.
abbrev pub toy : External
toy = record {
  poseidon = sum_by λ f. f;
  keccak256 = sum_by λ b. b;
  felt_add = λ a b. a + b;
  felt_sub = λ a b. a;
  felt_mul = λ a b. a;
  generator = (1, 2);
  point_mul = λ p k. (k, k);
  new_from_x = λ a b. some (a, a);
}

-- A generator that counts.
abbrev pub counter : Randomness ℕ
counter = record { felt = λ r. ok (r, r + 1); salt120 = λ r. ok (r, r + 1) }

abbrev pub alice : Felt
alice = 10

abbrev pub bob : Felt
bob = 20

abbrev pub strk : Felt
strk = 7

abbrev pub usdc : Felt
usdc = 8

abbrev pub coin : Note
coin = record {
  id = 100;
  token = usdc;
  amount = 5;
  channel_key = 55;
  index = 3;
  sender = bob;
  is_open = false;
}

abbrev pub bob_channel : OutgoingChannel
bob_channel = record {
  recipient = bob;
  recipient_public_key = 21;
  key = 22;
  is_open = false;
  subchannels = [];
}

abbrev pub intent : Intent
intent = record {
  register = true;
  deposits = (strk, 10) ∷ [];
  transfers = (bob, usdc, 3) ∷ [];
  withdrawals = (alice, strk, 4) ∷ [];
}

abbrev pub state : State
state = record {
  user = alice;
  user_sk = 11;
  registered = false;
  outgoing_channels = 0;
  channels = (bob, bob_channel) ∷ [];
  notes = coin ∷ [];
}

abbrev run : Result Failure (Plan × ℕ)
run = plan toy counter 4 intent state 0

-- What the run gives.
abbrev batch : Plan
batch = record {
  actions =
      set_viewing_key 0
      ∷ open_channel alice 0 1 2
      ∷ open_channel bob 1 3 4
      ∷ open_subchannel bob 21 22 0 usdc 5
      ∷ open_subchannel alice 11 5861110294252643408303928580734183246812763 0 strk 7
      ∷ open_subchannel alice 11 5861110294252643408303928580734183246812763 1 usdc 9
      ∷ deposit strk 10
      ∷ use_note 55 usdc 3
      ∷ create_enc_note bob 21 usdc 3 0 6
      ∷ create_enc_note alice 11 strk 6 0 8
      ∷ create_enc_note alice 11 usdc 2 0 10
      ∷ withdraw alice strk 4 11
      ∷ [];
  spent = 100 ∷ [];
  change = (strk, 6) ∷ (usdc, 2) ∷ [];
  warnings = user_linkage ∷ [];
}

run-batch : run ≡ ok (batch, 12)
unfolding plan cover_token strkd.Strk20.Crypto.public_key strkd.Strk20.Hashes.channel_key settle
    settle_registered deposits_nonzero nonzero outflows_nonzero balances add_deposits signed
    sub_outflows cover spend candidates insert_desc sort_desc ◌-ℤ◌ ◌+ℤ◌ wrap_i128 insert lookup
    create_note ensure_channel ensure_subchannel note_fresh noted on_channel open_fresh
    open_fresh_sub opened place_note place_notes sub_opened hash short_string assemble begin
    register_self self_channel warnings_of withdraw_actions note_salt
run-batch = refl

plan-PhasedFrom_example : PhasedFrom 0 batch.actions
plan-PhasedFrom_example = plan-PhasedFrom toy counter 4 intent state 0 12 batch run-batch

intent-InRange : InRange intent state.notes
intent-InRange = record { inflow = λ t. ground arith; outflow = λ t. ground arith }

plan-IsBalanced_example : IsBalanced state batch
plan-IsBalanced_example =
    plan-IsBalanced toy counter 4 intent state 0 12 batch intent-InRange run-batch

plan-note_indices_example :
    ((recipient t : Felt)
      → note_indices recipient t batch.actions
        ≡ count_up
            (note_count recipient t (new_notes intent state batch.change))
            (next_index recipient t (start_build toy intent state).channels))
    × All IsSalted batch.actions
plan-note_indices_example = plan-note_indices toy counter 4 intent state 0 12 batch run-batch

plan-Openings_example :
    Openings (start_build toy intent state).channels 0 (keep is_open_channel batch.actions)
    × (batch.warnings ≡ user_linkage ∷ [])
plan-Openings_example = plan-Openings toy counter 4 intent state 0 12 batch run-batch

-- One note of five, where nine are due.
cover_token-greedy_example :
    ((spendable usdc (coin ∷ []) < 9)
      × (cover_token (coin ∷ []) usdc (negsuc 8)
          ≡ err (
              insufficient_balance usdc
                (9 - spendable usdc (coin ∷ []))
                (available usdc (coin ∷ [])))))
    ⊎ ((9 ≤ spendable usdc (coin ∷ [])) × Takes (coin ∷ []) usdc (negsuc 8))
cover_token-greedy_example =
    cover_token-greedy (coin ∷ []) usdc (negsuc 8) (omega arith) (omega arith)

read_span-serialize_actions_example :
    read_span (serialize_actions batch.actions ++ (1 ∷ [])) ≡ some (batch.actions, 1 ∷ [])
read_span-serialize_actions_example = read_span-serialize_actions batch.actions (1 ∷ [])
