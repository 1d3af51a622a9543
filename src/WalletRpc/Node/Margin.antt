-- ===== src/WalletRpc/Node/Margin.antt =====
-- The bounds that an estimate gives.
use strkd.Prelude.{ℕ, ◌*◌, ◌/◌, ◌%◌, ◌^◌, ◌≤◌, ◌<◌, ◌≡◌, String, arith}
use strkd.Prelude.Json.{Value}
use strkd.Prelude.Formats.{Formats}
use strkd.Prelude.Result.{ok}
use strkd.WalletCore.Tx.{ResourceBounds}
use strkd.WalletRpc.Node.{with_margin, node_u128, bound_from_estimate, index}

-- A margin of a half, where one hundred and fifty times the value fits a `u128`.
with_margin-eq : (v : ℕ) → v * 150 < 2 ^ 128 → with_margin v ≡ v * 150 / 100
unfolding with_margin
with_margin-eq v h = ground arith

module _ (f : Formats) where
  -- Where an estimate's amount with its margin fits a u64, and one hundred and fifty times its price
  -- fits a u128, the bounds allow one and a half times both, rounded down, and so never less than the
  -- estimate.
  pub bound_from_estimate-covers :
      (est : Value) (amount_key price_key : String) (amount price : ℕ) (b : ResourceBounds)
      → node_u128 f (index f est amount_key) amount_key ≡ ok amount
      → node_u128 f (index f est price_key) price_key ≡ ok price
      → amount * 150 / 100 < 2 ^ 64
      → price * 150 < 2 ^ 128
      → bound_from_estimate f est amount_key price_key ≡ ok b
      → (b.max_amount ≡ amount * 150 / 100)
        × (b.max_price_per_unit ≡ price * 150 / 100)
        × (amount ≤ b.max_amount)
        × (price ≤ b.max_price_per_unit)
  unfolding bound_from_estimate
  bound_from_estimate-covers est amount_key price_key amount price b ea ep la lp eb =
      let small : amount * 150 < 2 ^ 128 = omega arith in
      let ma = with_margin-eq amount small in
      let mp = with_margin-eq price lp in
      let cut : amount * 150 / 100 % 2 ^ 64 ≡ amount * 150 / 100 = omega arith in
      let x : b.max_amount ≡ amount * 150 / 100 = ground (arith, ea, ep, ma, mp, cut, eb) in
      let y : b.max_price_per_unit ≡ price * 150 / 100 = ground (arith, ea, ep, ma, mp, cut, eb) in
      (x, y, omega arith, omega arith)
