-- ===== src/Strk20/Discovery/Outgoing.antt =====
-- The count of a user's outgoing channels, on a pool that fills its slots from 0
-- (crates/strk20/src/discovery.rs).
use strkd.Prelude.{
  ℕ, zero, suc, ◌+◌, ◌≤◌, ◌<◌, ◌≡◌, ◌≢◌, true, false, [], ◌∷◌, arith, ◌==◌, Bool-cases, inl, inr,
  sym, subst,
}
use strkd.Prelude.Result.{ok}
use strkd.Felt.{Felt, External}
use strkd.WalletCore.Tx.{get_selector_from_name}
use strkd.Strk20.Hashes.{outgoing_channel_id}
use strkd.Strk20.Discovery.{Reader, first_two, count_outgoing, outgoing_channel_count, u32_limit}

-- A slot of the pool: the salt, zero where it is empty, and the encrypted recipient.
abbrev pub Slots : Type 0
Slots = ℕ → Felt × Felt

-- The pool answers the view function on the id of each slot with the slot.
abbrev pub Shows : External → Reader → Felt → Felt → Slots → Type 0
Shows x call user user_sk slots =
    (s : ℕ)
    → call (get_selector_from_name x "get_outgoing_channel_info")
        (outgoing_channel_id x user user_sk s ∷ [])
      ≡ ok ((slots s).0 ∷ (slots s).1 ∷ [])

module _ (x : External) (call : Reader) (user user_sk : Felt) (slots : Slots)
    (shows : Shows x call user user_sk slots) where
  count_outgoing-first :
      (left s n : ℕ)
      → s ≤ n
      → n < s + left
      → ((i : ℕ) → i < n → (slots i).0 ≢ 0)
      → (slots n).0 ≡ 0
      → count_outgoing x call user user_sk left s ≡ ok n
  unfolding count_outgoing first_two
  count_outgoing-first zero s n h k f e = absurd (omega arith)
  count_outgoing-first (suc left) s n h k f e = elim (Bool-cases (s == n)) [
    | inl q ↦
        let p : s ≡ n = ground arith in
        let z : (slots s).0 ≡ 0 = subst (λ i. (slots i).0 ≡ 0) (sym p) e in
        let t : ((slots s).0 == 0) ≡ true = ground arith in ground (arith, shows s)
    | inr q ↦
        let l : s < n = ground arith in
        let z = f s l in
        let t : ((slots s).0 == 0) ≡ false = ground arith in
        let r = count_outgoing-first left (s + 1) n (omega arith) (omega arith) f e in
        ground (arith, shows s)
  ]

  -- On a pool whose slots below `n` are filled and whose slot `n` is empty, `n` a `u32`, the count of
  -- outgoing channels is `n`.
  pub outgoing_channel_count-first :
      (n : ℕ)
      → n < u32_limit
      → ((i : ℕ) → i < n → (slots i).0 ≢ 0)
      → (slots n).0 ≡ 0
      → outgoing_channel_count x call user user_sk ≡ ok n
  unfolding outgoing_channel_count
  outgoing_channel_count-first n k f e =
      count_outgoing-first u32_limit 0 n (omega arith) (omega arith) f e
