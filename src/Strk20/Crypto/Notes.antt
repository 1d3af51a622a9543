-- ===== src/Strk20/Crypto/Notes.antt =====
-- Encrypting a note's value and decrypting it again.
use strkd.Prelude.{ℕ, ◌+◌, ◌-◌, ◌*◌, ◌/◌, ◌%◌, ◌^◌, ◌<◌, ◌≡◌, ap, ◌∙◌, false, some, arith, ◌==◌}
use strkd.Felt.{Felt, External}
use strkd.Strk20.Hashes.{enc_amount_hash}
use strkd.Strk20.Crypto.{open_note_salt, u128_mod, decrypt_note_value, encrypt_note_value}

-- The order of the field.
abbrev pub prime : ℕ
prime = 2 ^ 251 + 17 * 2 ^ 192 + 1

wrapped_back :
    (p a : ℕ) → p < u128_mod → a < u128_mod → ((p + a) % u128_mod + u128_mod - p) % u128_mod ≡ a
wrapped_back p a h k = omega arith

module _ (x : External) (felt_add_lem : (a b : Felt) → x.felt_add a b ≡ (a + b) % prime)
    (felt_mul_lem : (a b : Felt) → x.felt_mul a b ≡ (a * b) % prime) where
  packed :
      (salt e : ℕ)
      → salt < 2 ^ 120
      → e < u128_mod
      → x.felt_add (x.felt_mul salt (x.felt_mul (2 ^ 127) 2)) e ≡ salt * u128_mod + e
  packed salt e h k =
      let q : x.felt_mul (2 ^ 127) 2 ≡ u128_mod = felt_mul_lem (2 ^ 127) 2 in
      let r : x.felt_mul salt u128_mod ≡ salt * u128_mod =
        felt_mul_lem salt u128_mod ∙ omega arith in
      rw (q, r) (felt_add_lem (salt * u128_mod) e ∙ omega arith)

  -- For a salt of 120 bits above 1 and an amount that a `u128` holds, decrypting the encrypted value
  -- of a note with the same key, token and index gives back the amount and the salt, where the
  -- field's addition and multiplication are those of the numbers modulo its order.
  pub decrypt_note_value-encrypt_note_value :
      (amount salt : ℕ) (channel_key token : Felt) (index : ℕ)
      → amount < u128_mod
      → open_note_salt < salt
      → salt < 2 ^ 120
      → decrypt_note_value x
          (encrypt_note_value x amount salt channel_key token index)
          channel_key
          token
          index
        ≡ some (record { amount = amount; salt = salt; is_open = false })
  unfolding decrypt_note_value encrypt_note_value
  decrypt_note_value-encrypt_note_value amount salt channel_key token index h k l =
      let pad = enc_amount_hash x channel_key token index salt % u128_mod in
      let e = (pad + amount) % u128_mod in
      let nonempty : ((salt * u128_mod + e) == 0) ≡ false = ground arith in
      let high : (salt * u128_mod + e) / u128_mod ≡ salt = omega arith in
      let low : (salt * u128_mod + e) % u128_mod ≡ e = omega arith in
      let encrypted : (salt == open_note_salt) ≡ false = ground arith in
      rw (packed salt e l (omega arith), nonempty, high, low, encrypted)
        (ap (λ a. some (record { amount = a; salt = salt; is_open = false }))
          (wrapped_back pad amount (omega arith) h))
