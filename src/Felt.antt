-- ===== src/Felt.antt =====
-- `Felt` and the cryptography that the crates call and do not implement (starknet_types_core,
-- sha3). A field element is its canonical representative, a number below the field's order; so
-- `==`, `<` and `Felt::from` of an unsigned integer are those of the numbers. What is not under
-- the repository is a field of `External`: no law is assumed unless a theorem names it.
use Prim.Native.Char.{code}
use strkd.Prelude.{ℕ, ◌+◌, ◌*◌, ◌/◌, ◌%◌, String, Bool, Option, List, [], ◌∷◌, ltb, if◌then◌else◌}

abbrev pub Felt : Type 0
Felt = ℕ

pub record External : Type 0 where
  -- `Poseidon::hash_array`
  pub poseidon : List Felt → Felt
  -- `Keccak256::digest`, as a 256-bit number
  pub keccak256 : List ℕ → ℕ
  -- `Felt` arithmetic in the field
  pub felt_add : Felt → Felt → Felt
  pub felt_sub : Felt → Felt → Felt
  pub felt_mul : Felt → Felt → Felt
  -- `AffinePoint::{generator, mul, new_from_x}`, a point as its two coordinates
  pub generator : Felt × Felt
  pub point_mul : Felt × Felt → Felt → Felt × Felt
  pub new_from_x : Felt → Bool → Option (Felt × Felt)

-- A code point in UTF-8, before what follows it.
abbrev utf8 : ℕ → List ℕ → List ℕ
utf8 c rest =
    if ltb c 128
    then c ∷ rest
    else if ltb c 2048
    then (192 + c / 64) ∷ (128 + c % 64) ∷ rest
    else if ltb c 65536
    then (224 + c / 4096) ∷ (128 + c / 64 % 64) ∷ (128 + c % 64) ∷ rest
    else (240 + c / 262144) ∷ (128 + c / 4096 % 64) ∷ (128 + c / 64 % 64) ∷ (128 + c % 64) ∷ rest

-- The bytes of a text (`str::as_bytes`).
abbrev pub as_bytes : String → List ℕ
as_bytes String.[] = []
as_bytes (String.◌∷◌ c s) = utf8 (code c) (as_bytes s)

-- `Felt::from_bytes_be_slice`, for slices of at most 31 bytes.
abbrev pub from_bytes_be : ℕ → List ℕ → ℕ
from_bytes_be acc [] = acc
from_bytes_be acc (b ∷ bs) = from_bytes_be (acc * 256 + b) bs
