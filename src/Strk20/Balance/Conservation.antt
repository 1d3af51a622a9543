-- ===== src/Strk20/Balance/Conservation.antt =====
-- Per token, deposits and spent notes against outflows and change
-- (crates/strk20/src/planner.rs).
use strkd.Prelude.{
  ℕ, ◌+◌, ◌≤◌, ◌<◌, ◌≡◌, ◌⊎◌, inl, inr, refl, Option, none, some, List, [], ◌∷◌, ◌++◌, arith, ◌==◌,
  ltb, if◌then◌else◌, sum_by-append, Bool-cases,
}
use strkd.Prelude.Int.{ℤ, pos_part, neg_part, i128_half}
use strkd.Prelude.Map.{
  BTreeMap, lookup, insert, lookup-insert, IsSorted, Above, lookup-Above, IsSorted-of_Above,
}
use strkd.Prelude.Result.{ok, >>=-eq-ok}
use strkd.Felt.{Felt}
use strkd.Strk20.Discovery.{Note}
use strkd.Strk20.Intent.{Intent}
use strkd.Strk20.Balance.{balance_of, balances, cover_token, cover, add_deposits}
use strkd.Strk20.Balance.Totals.{
  deposited, outgoing, worth, total, cover_token-worth, add_deposits-balance_of,
  sub_outflows-balance_of, add_deposits-IsSorted, sub_outflows-IsSorted,
}

abbrev or_none : Option ℕ → ℕ
or_none none = 0
or_none (some n) = n

-- The change of a token, 0 where there is none.
abbrev pub change_of : BTreeMap ℕ → Felt → ℕ
change_of change t = or_none (lookup t change)

-- The change that one token's settlement adds.
abbrev with_change : Felt → ℕ → BTreeMap ℕ → BTreeMap ℕ
with_change u left change = if ltb 0 left then insert u left change else change

with_change-change_of :
    (t u : Felt) (left : ℕ) (change : BTreeMap ℕ)
    → change_of (with_change u left change) t
      ≡ (if u == t then (if ltb 0 left then left else change_of change t) else change_of change t)
with_change-change_of t u left change = ground (arith, lookup-insert u t left change)

worth-append : (t : Felt) (s r : List Note) → worth t (s ++ r) ≡ worth t s + worth t r
worth-append t s r = sum_by-append _ s r

-- A token whose balance is still to come has no change yet.
abbrev Pending : Felt → BTreeMap ℤ → BTreeMap ℕ → Type 0
Pending t entries change = (lookup t entries ≡ none) ⊎ (change_of change t ≡ 0)

abbrev Within : List Note → BTreeMap ℤ → Type 0
Within notes [] = Unit {0}
Within notes ((u, bal) ∷ rest) =
    (pos_part bal + total notes < i128_half) × (neg_part bal ≤ i128_half) × Within notes rest

Pending-rest :
    (t u : Felt) (bal : ℤ) (rest : BTreeMap ℤ) (left : ℕ) (change : BTreeMap ℕ)
    → Above u rest
    → Pending t ((u, bal) ∷ rest) change
    → Pending t rest (with_change u left change)
unfolding lookup
Pending-rest t u bal rest left change o p = elim (Bool-cases (u == t)) [
  | inl hit ↦ inl (ground (arith, lookup-Above u u rest o))
  | inr miss ↦ ground (arith, with_change-change_of t u left change)
]

module _ (notes : List Note) (t : Felt) where
  cover-worth :
      (entries : BTreeMap ℤ) (spends s : List Note) (change c : BTreeMap ℕ)
      → IsSorted entries
      → Within notes entries
      → Pending t entries change
      → cover notes entries spends change ≡ ok (s, c)
      → worth t s + pos_part (balance_of entries t) + change_of change t
        ≡ worth t spends + neg_part (balance_of entries t) + change_of c t
  unfolding cover lookup
  cover-worth [] spends s change c o w p e = ground arith
  cover-worth ((u, bal) ∷ rest) spends s change c o w p e =
      let ((s₁, b), e₁, e₂) = >>=-eq-ok (cover_token notes u bal) _ e in
      let left = pos_part b in
      let step = cover_token-worth notes u bal s₁ b w.0 w.1 e₁ in
      let ih =
        cover-worth rest (spends ++ s₁) s (with_change u left change) c (IsSorted-of_Above u rest o)
          w.2 (Pending-rest t u bal rest left change o p) e₂ in
      ground (
        arith,
        ih,
        step.0,
        step.1,
        step.2 t,
        with_change-change_of t u left change,
        worth-append t spends s₁,
        lookup-Above u u rest o,
      )

Within-of_bounds :
    (notes : List Note) (m : BTreeMap ℤ)
    → IsSorted m
    → ((t : Felt)
        → (pos_part (balance_of m t) + total notes < i128_half)
          × (neg_part (balance_of m t) ≤ i128_half))
    → Within notes m
unfolding lookup
Within-of_bounds notes [] o h = tt
Within-of_bounds notes ((u, bal) ∷ rest) o h = (
  ground (arith, h u),
  ground (arith, h u),
  Within-of_bounds notes rest (IsSorted-of_Above u rest o)
      λ t. ground (arith, h t, h u, lookup-Above u t rest o),
)

-- Amounts that an `i128` can hold: no sum of the batch leaves its range.
pub record InRange (intent : Intent) (notes : List Note) : Type 0 where
  pub inflow : (t : Felt) → deposited t intent.deposits + total notes < i128_half
  pub outflow : (t : Felt) → outgoing t (intent.transfers ++ intent.withdrawals) ≤ i128_half

pub balances-IsSorted : (intent : Intent) (m : BTreeMap ℤ) → balances intent ≡ ok m → IsSorted m
unfolding balances
balances-IsSorted intent m e =
    let (m₁, e₁, e₂) = >>=-eq-ok (add_deposits intent.deposits []) _ e in
    sub_outflows-IsSorted (intent.transfers ++ intent.withdrawals) m₁ m
      (add_deposits-IsSorted intent.deposits [] m₁ tt e₁) e₂

module _ (intent : Intent) (notes : List Note) (range : InRange intent notes) (m : BTreeMap ℤ) where
  balances-balance_of :
      balances intent ≡ ok m
      → (t : Felt)
      → pos_part (balance_of m t) + outgoing t (intent.transfers ++ intent.withdrawals)
        ≡ neg_part (balance_of m t) + deposited t intent.deposits
  unfolding balances lookup
  balances-balance_of e t =
      let (m₁, e₁, e₂) = >>=-eq-ok (add_deposits intent.deposits []) _ e in
      let d = add_deposits-balance_of t intent.deposits [] m₁ in
      let o = sub_outflows-balance_of t (intent.transfers ++ intent.withdrawals) m₁ m in
      ground (arith, d, o, range.inflow t, range.outflow t)

  -- Per token: deposits and spent notes together are outflows and change together.
  pub settle-worth :
      (s : List Note) (c : BTreeMap ℕ)
      → balances intent ≡ ok m
      → cover notes m [] [] ≡ ok (s, c)
      → (t : Felt)
      → deposited t intent.deposits + worth t s
        ≡ outgoing t (intent.transfers ++ intent.withdrawals) + change_of c t
  unfolding lookup
  settle-worth s c e f t =
      let within =
        Within-of_bounds notes m (balances-IsSorted intent m e)
          λ u. ground (arith, balances-balance_of e u, range.inflow u, range.outflow u) in
      ground (
        arith,
        balances-balance_of e t,
        cover-worth notes t m [] s [] c (balances-IsSorted intent m e) within (inr refl) f,
      )
