-- ===== src/WalletRpc/Dispatch/Summary.antt =====
-- The summaries that a prompt shows (crates/wallet-rpc/src/dispatch.rs).
use strkd.Prelude.{String, List, [], ◌∷◌}
use strkd.Prelude.Text.{◌<>◌}
use strkd.Prelude.Formats.{Formats, felt_hex}
use strkd.WalletCore.Tx.{Call, ResourceBounds}
use strkd.WalletRpc.Node.{FeeBounds}

module _ (f : Formats) where
  abbrev bound_summary : ResourceBounds → String
  bound_summary b = f.decimal b.max_amount <> "×" <> f.decimal b.max_price_per_unit

  unfoldable pub bounds_summary : FeeBounds → String
  bounds_summary b =
      "l1 "
      <> bound_summary b.l1_gas
      <> " / l2 "
      <> bound_summary b.l2_gas
      <> " / l1_data "
      <> bound_summary b.l1_data_gas

  unfoldable pub summarize_calls : List Call → String
  summarize_calls [] = ""
  summarize_calls (c ∷ []) = "→ " <> felt_hex f c.to <> " :: selector " <> felt_hex f c.selector
  summarize_calls (c ∷ d ∷ cs) =
      "→ "
      <> felt_hex f c.to
      <> " :: selector "
      <> felt_hex f c.selector
      <> "; "
      <> summarize_calls (d ∷ cs)
