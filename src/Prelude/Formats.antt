-- ===== src/Prelude/Formats.antt =====
-- The reading and printing that the standard library, serde_json and starknet_types_core do.
use Prim.Native.String.{String, [], ◌∷◌}
use Prim.Native.Char.{code}
use Prim.Native.Nat.{ℕ}
use mathlib.Core.Option.{Option, none, some}
use mathlib.Core.List.{List}
use strkd.Prelude.Tests.{◌==◌, if◌then◌else◌}
use strkd.Prelude.Text.{◌<>◌}
use strkd.Prelude.Json.{Value}

pub record Formats : Type 0 where
  -- `{:x}`, `{:064x}` and `{}` of a number
  pub lower_hex : ℕ → String
  pub lower_hex_64 : ℕ → String
  pub decimal : ℕ → String
  -- `{:.4}` of the number divided by 10^18 as an `f64`
  pub strk_4 : ℕ → String
  -- `Felt::from_hex`, `str::parse::<u128>`, `u128::from_str_radix(_, 16)`; `none` is an error
  pub from_hex : String → Option ℕ
  pub parse_u128 : String → Option ℕ
  pub u128_from_hex : String → Option ℕ
  -- `str::as_bytes`, and the text of ASCII bytes
  pub bytes : String → List ℕ
  pub from_ascii : List ℕ → String
  -- `str::trim`
  pub trim : String → String
  -- `serde_json::to_string`
  pub to_json : Value → Option String

-- `str::strip_prefix`
abbrev pub strip_prefix : String → String → Option String
strip_prefix [] s = some s
strip_prefix (c ∷ p) [] = none
strip_prefix (c ∷ p) (d ∷ s) =
    let rest = strip_prefix p s in if code c == code d then rest else none

module _ (f : Formats) where
  unfoldable pub felt_hex : ℕ → String
  felt_hex n = "0x" <> f.lower_hex n

  unfoldable pub address_hex : ℕ → String
  address_hex n = "0x" <> f.lower_hex_64 n
