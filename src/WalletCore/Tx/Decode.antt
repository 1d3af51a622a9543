-- ===== src/WalletCore/Tx/Decode.antt =====
-- The array of calls, read back as an account's `__execute__` reads it.
use strkd.Prelude.{ℕ, zero, suc, ◌≡◌, refl, Option, none, some, List, [], ◌∷◌, ◌++◌, length}
use mathlib.Core.List.{append_assoc, append-nil}
use strkd.Felt.{Felt}
use strkd.WalletCore.Tx.{Call, encode_each, encode_calls}

-- `n` elements, and the rest.
abbrev pub read_n : ℕ → List Felt → Option (List Felt × List Felt)
read_n zero fs = some ([], fs)
read_n (suc n) [] = none
read_n (suc n) (f ∷ fs) = elim (read_n n fs) [ none ↦ none | some r ↦ some (f ∷ r.0, r.1) ]

abbrev after_data : Felt → Felt → Option (List Felt × List Felt) → Option (Call × List Felt)
after_data to selector none = none
after_data to selector (some (args, rest)) =
    some (record { to = to; selector = selector; calldata = args }, rest)

-- `to`, `selector`, the length and as many elements.
unfoldable pub read_call : List Felt → Option (Call × List Felt)
read_call (to ∷ selector ∷ n ∷ fs) = after_data to selector (read_n n fs)
read_call _ = none

unfoldable pub read_each : ℕ → List Felt → Option (List Call × List Felt)
read_each zero fs = some ([], fs)
read_each (suc n) fs = elim (read_call fs) [
  | none ↦ none
  | some r ↦ elim (read_each n r.1) [ none ↦ none | some q ↦ some (r.0 ∷ q.0, q.1) ]
]

unfoldable pub read_calls : List Felt → Option (List Call × List Felt)
read_calls [] = none
read_calls (n ∷ fs) = read_each n fs

read_n-append : (xs r : List Felt) → read_n (length xs) (xs ++ r) ≡ some (xs, r)
read_n-append [] r = refl
read_n-append (x ∷ xs) r = rw (read_n-append xs r) refl

unfoldable encoded : List Call → List Felt
encoded [] = []
encoded (c ∷ cs) = (c.to ∷ c.selector ∷ length c.calldata ∷ c.calldata) ++ encoded cs

encode_each-encoded : (cs : List Call) (out : List Felt) → encode_each cs out ≡ out ++ encoded cs
unfolding encode_each encoded
encode_each-encoded [] out = rw append-nil refl
encode_each-encoded (c ∷ cs) out =
    rw
      (
        encode_each-encoded cs (out ++ (c.to ∷ c.selector ∷ length c.calldata ∷ c.calldata)),
        append_assoc,
      )
      refl

read_call-append :
    (c : Call) (r : List Felt)
    → read_call ((c.to ∷ c.selector ∷ length c.calldata ∷ c.calldata) ++ r) ≡ some (c, r)
unfolding read_call
read_call-append c r = rw (read_n-append c.calldata r) refl

read_each-encoded :
    (cs : List Call) (r : List Felt) → read_each (length cs) (encoded cs ++ r) ≡ some (cs, r)
unfolding read_each encoded
read_each-encoded [] r = refl
read_each-encoded (c ∷ cs) r =
    rw (append_assoc, read_call-append c (encoded cs ++ r), read_each, read_each-encoded cs r) refl

-- The account reads back the calls, in order, and leaves what follows them.
pub read_calls-encode_calls :
    (cs : List Call) (r : List Felt) → read_calls (encode_calls cs ++ r) ≡ some (cs, r)
unfolding read_calls encode_calls
read_calls-encode_calls cs r = rw (encode_each-encoded cs (length cs ∷ [])) (read_each-encoded cs r)
