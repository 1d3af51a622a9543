-- ===== src/Strk20/Balance/Greedy.antt =====
-- Which candidates cover a deficit, and when it is refused (crates/strk20/src/planner.rs).
use strkd.Prelude.{
  ◌⊎◌, inl, inr, ℕ, ◌+◌, ◌-◌, ◌≤◌, ◌<◌, ◌≡◌, refl, subst, ap, true, false, List, [], ◌∷◌, ◌++◌,
  arith, All, All-right, keep, Bool-cases, ltb,
}
use strkd.Prelude.Int.{ℤ, pos, negsuc, pos_part, neg_part, is_neg, i128_half, ◌+ℤ◌, +ℤ-parts_of_neg}
use strkd.Prelude.Result.{ok, err}
use strkd.Felt.{Felt}
use strkd.Strk20.Error.{insufficient_balance}
use strkd.Strk20.Discovery.{Note}
use strkd.Strk20.Balance.{
  signed, insert_desc, sort_desc, is_candidate, candidates, spend, cover_token, available,
}
use strkd.Strk20.Balance.Totals.{
  total, spend-SpendStep, total-candidates, total-sort_desc, insert_desc-All,
}

abbrev AtMost : ℕ → Note → Type 0
AtMost k n = n.amount ≤ k

-- Amounts fall along the list.
abbrev pub Descends : List Note → Type 0
Descends [] = Unit {0}
Descends (n ∷ ns) = All (AtMost n.amount) ns × Descends ns

AtMost-mono : (j k : ℕ) (ns : List Note) → j ≤ k → All (AtMost j) ns → All (AtMost k) ns
AtMost-mono j k [] h a = tt
AtMost-mono j k (n ∷ ns) h a = (omega arith, AtMost-mono j k ns h a.1)

insert_desc-Descends : (n : Note) (ms : List Note) → Descends ms → Descends (insert_desc n ms)
unfolding insert_desc
insert_desc-Descends n [] d = (tt, tt)
insert_desc-Descends n (m ∷ ms) d = ground (
  arith,
  AtMost-mono m.amount n.amount ms,
  insert_desc-All (AtMost m.amount) n ms,
  insert_desc-Descends n ms d.1,
)

sort_desc-Descends : (ns : List Note) → Descends (sort_desc ns)
unfolding sort_desc
sort_desc-Descends [] = tt
sort_desc-Descends (n ∷ ns) = insert_desc-Descends n (sort_desc ns) (sort_desc-Descends ns)

pub candidates-Descends : (t : Felt) (ns : List Note) → Descends (candidates t ns)
unfolding candidates
candidates-Descends t ns = sort_desc-Descends (keep (is_candidate t) ns)

-- Every note of the list is needed: before it, `due` is still open.
abbrev pub Needed : ℕ → List Note → Type 0
Needed due [] = Unit {0}
Needed due (n ∷ ns) = (0 < due) × Needed (due - n.amount) ns

-- The loop takes a prefix, all of it needed.
spend-prefix :
    (ns s : List Note) (bal b : ℤ)
    → pos_part bal + total ns < i128_half
    → neg_part bal ≤ i128_half
    → spend ns bal ≡ ok (s, b)
    → (rest : List Note) × (ns ≡ s ++ rest) × Needed (neg_part bal) s
unfolding spend
spend-prefix [] s bal b h k e =
    let p : [] ≡ s = ground arith in
    ([], subst (λ z. [] ≡ z ++ []) p refl, subst (Needed (neg_part bal)) p tt)
spend-prefix (n ∷ ns) s bal b h k e = elim (spend-SpendStep n ns bal s b e) [
  | inl (_, p, q) ↦ (n ∷ ns, rw p refl, rw p tt)
  | inr (s', neg, fits, p, r) ↦
      let (f, g) = +ℤ-parts_of_neg bal n.amount neg fits k in
      let (rest, q, d) = spend-prefix ns s' (bal +ℤ n.amount) b (omega arith) (omega arith) r in
      (rest, rw p (ap (λ (z : List Note). n ∷ z) q), rw p (ground arith, rw (← f) d))
]

-- With enough in the candidates the loop ends with nothing due; otherwise it takes them all.
spend-covers :
    (ns : List Note) (bal : ℤ)
    → pos_part bal + total ns < i128_half
    → neg_part bal ≤ i128_half
    → neg_part bal ≤ total ns
    → (s : List Note) × (b : ℤ) × (spend ns bal ≡ ok (s, b)) × (is_neg b ≡ false)
unfolding spend signed
spend-covers [] (pos m) h k c = ([], pos m, refl, refl)
spend-covers [] (negsuc m) h k c = absurd (omega arith)
spend-covers (n ∷ ns) (pos m) h k c = ([], pos m, refl, refl)
spend-covers (n ∷ ns) (negsuc m) h k c =
    let (f, g) = +ℤ-parts_of_neg (negsuc m) n.amount refl (omega arith) k in
    let (s, b, e, z) =
      spend-covers ns (negsuc m +ℤ n.amount) (omega arith) (omega arith) (omega arith) in
    (n ∷ s, b, ground arith, z)

spend-short :
    (ns : List Note) (bal : ℤ)
    → pos_part bal + total ns < i128_half
    → neg_part bal ≤ i128_half
    → total ns < neg_part bal
    → (b : ℤ) × (spend ns bal ≡ ok (ns, b))
      × (is_neg b ≡ true)
      × (neg_part b ≡ neg_part bal - total ns)
unfolding spend signed
spend-short [] (pos m) h k c = absurd (omega arith)
spend-short [] (negsuc m) h k c = (negsuc m, refl, refl, omega arith)
spend-short (n ∷ ns) (pos m) h k c = absurd (omega arith)
spend-short (n ∷ ns) (negsuc m) h k c =
    let (f, g) = +ℤ-parts_of_neg (negsuc m) n.amount refl (omega arith) k in
    let (b, e, z, d) =
      spend-short ns (negsuc m +ℤ n.amount) (omega arith) (omega arith) (omega arith) in
    (b, ground arith, z, omega arith)

-- What the user holds of a token that a batch can spend.
abbrev pub spendable : Felt → List Note → ℕ
spendable t notes = total (keep (is_candidate t) notes)

Prefix-AtMost :
    (s rest : List Note) → Descends (s ++ rest) → All (λ n. All (AtMost n.amount) rest) s
Prefix-AtMost [] rest d = tt
Prefix-AtMost (n ∷ s) rest d = (All-right (AtMost n.amount) s rest d.0, Prefix-AtMost s rest d.1)

-- What `cover_token` gives where the candidates are enough.
abbrev pub Takes : List Note → Felt → ℤ → Type 0
Takes notes t bal =
    (s : List Note) × (b : ℤ) × (rest : List Note) × (cover_token notes t bal ≡ ok (s, b))
    × (is_neg b ≡ false)
    × (candidates t notes ≡ s ++ rest)
    × Needed (neg_part bal) s
    × All (λ n. All (AtMost n.amount) rest) s

total-spendable : (notes : List Note) (t : Felt) → total (candidates t notes) ≡ spendable t notes
unfolding candidates
total-spendable notes t = total-sort_desc (keep (is_candidate t) notes)

cover_token-err :
    (notes : List Note) (t : Felt) (bal : ℤ)
    → pos_part bal + total notes < i128_half
    → neg_part bal ≤ i128_half
    → spendable t notes < neg_part bal
    → cover_token notes t bal
      ≡ err (insufficient_balance t (neg_part bal - spendable t notes) (available t notes))
unfolding cover_token
cover_token-err notes t (pos m) h k c = absurd (omega arith)
cover_token-err notes t (negsuc m) h k c =
    let q = total-spendable notes t in
    let l = total-candidates t notes in
    let (b, e, z, d) =
      spend-short (candidates t notes) (negsuc m) (omega arith) (omega arith) (omega arith) in
    rw (e, z) (ap (λ v. err (insufficient_balance t v (available t notes))) (omega arith))

cover_token-Takes :
    (notes : List Note) (t : Felt) (bal : ℤ)
    → pos_part bal + total notes < i128_half
    → neg_part bal ≤ i128_half
    → neg_part bal ≤ spendable t notes
    → Takes notes t bal
unfolding cover_token
cover_token-Takes notes t (pos m) h k c = ([], pos m, candidates t notes, refl, refl, refl, tt, tt)
cover_token-Takes notes t (negsuc m) h k c =
    let q = total-spendable notes t in
    let l = total-candidates t notes in
    let (s, b, e, z) =
      spend-covers (candidates t notes) (negsuc m) (omega arith) (omega arith) (omega arith) in
    let (rest, p, d) =
      spend-prefix (candidates t notes) s (negsuc m) b (omega arith) (omega arith) e in
    (
      s,
      b,
      rest,
      rw (e, z) refl,
      z,
      p,
      d,
      Prefix-AtMost s rest (subst Descends p (candidates-Descends t notes)),
    )

-- Let the credit of a token and all the notes held be together below 2^127, and what is due of it
-- at most 2^127. There are two cases. The spendable notes fall short of what is due, and
-- `cover_token` refuses and says by how much. Or they suffice, and it succeeds with nothing left
-- due; what it spends is then a prefix of the candidates, all of it needed, and no candidate that
-- it leaves is larger than one that it takes.
pub cover_token-greedy :
    (notes : List Note) (t : Felt) (bal : ℤ)
    → pos_part bal + total notes < i128_half
    → neg_part bal ≤ i128_half
    → ((spendable t notes < neg_part bal)
        × (cover_token notes t bal
            ≡ err (insufficient_balance t (neg_part bal - spendable t notes) (available t notes))))
      ⊎ ((neg_part bal ≤ spendable t notes) × Takes notes t bal)
cover_token-greedy notes t bal h k = elim (Bool-cases (ltb (spendable t notes) (neg_part bal))) [
  | inl e ↦
      let c : spendable t notes < neg_part bal = ground arith in
      inl (c, cover_token-err notes t bal h k c)
  | inr e ↦
      let c : neg_part bal ≤ spendable t notes = ground arith in
      inr (c, cover_token-Takes notes t bal h k c)
]
