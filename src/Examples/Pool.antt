-- ===== src/Examples/Pool.antt =====
-- A note's value and a pool's slots, on concrete data.
use strkd.Prelude.{ℕ, ◌+◌, ◌-◌, ◌*◌, ◌%◌, ◌<◌, ◌≡◌, ◌≢◌, refl, ap, false, some, [], ◌∷◌, arith}
use strkd.Prelude.Result.{ok}
use strkd.Felt.{Felt, External}
use strkd.Strk20.Hashes.{outgoing_channel_id, hash}
use strkd.Strk20.Crypto.{decrypt_note_value, encrypt_note_value}
use strkd.Strk20.Crypto.Notes.{prime, decrypt_note_value-encrypt_note_value}
use strkd.Strk20.Discovery.{Reader, outgoing_channel_count}
use strkd.Strk20.Discovery.Outgoing.{Slots, Shows, outgoing_channel_count-first}
use strkd.Examples.Planning.{toy}

abbrev field : External
field = record toy { felt_add = λ a b. (a + b) % prime; felt_mul = λ a b. a * b % prime }

decrypt_note_value-encrypt_note_value_example :
    decrypt_note_value field (encrypt_note_value field 1000 77 5 6 2) 5 6 2
    ≡ some (record { amount = 1000; salt = 77; is_open = false })
decrypt_note_value-encrypt_note_value_example =
    decrypt_note_value-encrypt_note_value field (λ a b. refl) (λ a b. refl) 1000 77 5 6 2
      (omega arith) (omega arith) (omega arith)

-- Two slots are filled.
abbrev slots : Slots
slots s = (2 - s, 9)

abbrev first_id : Felt
first_id = outgoing_channel_id toy 10 11 0

abbrev pool : Reader
pool selector (id ∷ []) = ok ((first_id + 2 - id) ∷ 9 ∷ [])
pool selector _ = ok []

pool-Shows : Shows toy pool 10 11 slots
unfolding outgoing_channel_id hash
pool-Shows s = ap (λ a. ok (a ∷ 9 ∷ [])) (omega arith)

outgoing_channel_count-first_example : outgoing_channel_count toy pool 10 11 ≡ ok 2
outgoing_channel_count-first_example =
    outgoing_channel_count-first toy pool 10 11 slots pool-Shows 2 (omega arith) (λ i h. filled i h)
      refl
  where
    filled : (i : ℕ) → i < 2 → 2 - i ≢ 0
    filled i h e = omega arith
