-- ===== src/WalletRpc/Dispatch/Query.antt =====
-- Percent-encoding (`encode_query` of crates/wallet-rpc/src/dispatch.rs), on the bytes of the text.
use strkd.Prelude.{
  ℕ, ◌+◌, ◌-◌, ◌*◌, ◌/◌, ◌%◌, ◌<◌, ◌≡◌, ◌≢◌, refl, ◌∙◌, inl, inr, Bool, true, ◌||◌, List, [], ◌∷◌,
  ltb, ◌==◌, if◌then◌else◌, All, arith, Bool-cases, ap,
}
use strkd.WalletRpc.State.{is_ascii_alphanumeric}

abbrev is_unreserved : ℕ → Bool
is_unreserved b = is_ascii_alphanumeric b || b == 45 || b == 95 || b == 46 || b == 126

-- A digit of `{:02X}`.
abbrev hex_digit : ℕ → ℕ
hex_digit d = if ltb d 10 then d + 48 else d + 55

unfoldable pub encode_query : List ℕ → List ℕ
encode_query [] = []
encode_query (b ∷ bs) =
    let rest = encode_query bs in
    if is_unreserved b then b ∷ rest else 37 ∷ hex_digit (b / 16) ∷ hex_digit (b % 16) ∷ rest

abbrev hex_value : ℕ → ℕ
hex_value c = if ltb c 58 then c - 48 else c - 55

-- What a browser reads: `%` and two digits are a byte, all else is itself.
unfoldable pub decode_query : List ℕ → List ℕ
decode_query [] = []
decode_query (c ∷ []) = c ∷ []
decode_query (c ∷ d ∷ []) = c ∷ d ∷ []
decode_query (c ∷ d ∷ e ∷ cs) =
    let escaped = (hex_value d * 16 + hex_value e) ∷ decode_query cs in
    let plain = c ∷ decode_query (d ∷ e ∷ cs) in if c == 37 then escaped else plain

-- Neither `&` nor `=` nor `#` nor `+` nor a space.
abbrev pub IsPlain : ℕ → Type 0
IsPlain c = (c ≢ 38) × (c ≢ 61) × (c ≢ 35) × (c ≢ 43) × (c ≢ 32)

decode_plain : (c : ℕ) (cs : List ℕ) → c ≢ 37 → decode_query (c ∷ cs) ≡ c ∷ decode_query cs
unfolding decode_query
decode_plain c [] h = refl
decode_plain c (d ∷ []) h = refl
decode_plain c (d ∷ e ∷ cs) h = ground arith

unreserved-IsPlain : (b : ℕ) → is_unreserved b ≡ true → IsPlain b × (b ≢ 37)
unreserved-IsPlain b h = ground arith

hex_value-hex_digit : (d : ℕ) → d < 16 → hex_value (hex_digit d) ≡ d
hex_value-hex_digit d h = ground arith

hex_digit-IsPlain : (d : ℕ) → d < 16 → IsPlain (hex_digit d)
hex_digit-IsPlain d h = ground arith

decode_escaped :
    (b : ℕ) (cs bs : List ℕ)
    → b / 16 < 16
    → b % 16 < 16
    → decode_query cs ≡ bs
    → decode_query (37 ∷ hex_digit (b / 16) ∷ hex_digit (b % 16) ∷ cs) ≡ b ∷ bs
unfolding decode_query
decode_escaped b cs bs hi lo back =
    rw (hex_value-hex_digit (b / 16) hi, hex_value-hex_digit (b % 16) lo) (ground (arith, back))

-- An encoded text of bytes holds no character that ends or splits a query, and decodes to the text.
pub decode_query-encode_query :
    (bs : List ℕ)
    → All (λ b. b < 256) bs
    → All IsPlain (encode_query bs) × (decode_query (encode_query bs) ≡ bs)
unfolding encode_query decode_query
decode_query-encode_query [] h = (tt, refl)
decode_query-encode_query (b ∷ bs) h =
    let (plain, back) = decode_query-encode_query bs h.1 in
    elim (Bool-cases (is_unreserved b)) [
      | inl u ↦
          let (p, q) = unreserved-IsPlain b u in
          rw u ((p, plain), decode_plain b (encode_query bs) q ∙ ap (λ (z : List ℕ). b ∷ z) back)
      | inr u ↦
          let hi : b / 16 < 16 = omega (arith, h.0) in
          let lo : b % 16 < 16 = omega arith in
          let escaped : All IsPlain
              (37 ∷ hex_digit (b / 16) ∷ hex_digit (b % 16) ∷ encode_query bs) =
            (
              ground arith,
              (hex_digit-IsPlain (b / 16) hi, (hex_digit-IsPlain (b % 16) lo, plain)),
            ) in
          rw (encode_query, u) (escaped, decode_escaped b (encode_query bs) bs hi lo back)
    ]
