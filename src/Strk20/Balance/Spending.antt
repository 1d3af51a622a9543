-- ===== src/Strk20/Balance/Spending.antt =====
-- Which notes are spent, counted against the notes of the state
-- (crates/strk20/src/planner.rs).
use strkd.Prelude.{
  ap, ℕ, ◌+◌, ◌≤◌, ◌<◌, ◌≡◌, inl, inr, refl, false, Option, none, some, List, [], ◌∷◌, ◌++◌, arith,
  ◌==◌, if◌then◌else◌, sum_by, sum_by-append, keep, All, All-append,
}
use strkd.Prelude.Int.{ℤ, pos_part}
use strkd.Prelude.Map.{
  BTreeMap, lookup, insert-IsSorted, IsSorted, Above, IsSorted-of_Above, lookup-Above,
}
use strkd.Prelude.Result.{ok, >>=-eq-ok, ok-injective}
use strkd.Felt.{Felt}
use strkd.Strk20.Discovery.{Note}
use strkd.Strk20.Balance.{
  insert_desc, sort_desc, candidates, is_candidate, spend, cover_token, cover,
}
use strkd.Strk20.Balance.Totals.{
  Fits, spend-SpendStep, cover_token-CoverStep, candidates-Fits, spend-All,
}

-- A note that may be spent.
abbrev pub IsSpendable : Note → Type 0
IsSpendable n = (n.is_open ≡ false) × (0 < n.amount)

module _ (f : Note → ℕ) where
  sum-insert_desc : (n : Note) (ms : List Note) → sum_by f (insert_desc n ms) ≡ f n + sum_by f ms
  unfolding insert_desc
  sum-insert_desc n [] = refl
  sum-insert_desc n (m ∷ ms) = ground (arith, sum-insert_desc n ms)

  sum-sort_desc : (ns : List Note) → sum_by f (sort_desc ns) ≡ sum_by f ns
  unfolding sort_desc
  sum-sort_desc [] = refl
  sum-sort_desc (n ∷ ns) = omega (arith, sum-insert_desc n (sort_desc ns), sum-sort_desc ns)

  sum-spend : (ns s : List Note) (bal b : ℤ) → spend ns bal ≡ ok (s, b) → sum_by f s ≤ sum_by f ns
  unfolding spend
  sum-spend [] s bal b e = ground arith
  sum-spend (n ∷ ns) s bal b e = elim (spend-SpendStep n ns bal s b e) [
    | inl (_, p, q) ↦ rw p (omega arith)
    | inr (s', _, _, p, r) ↦ rw p (omega (arith, sum-spend ns s' _ b r))
  ]

  -- `f` on the notes of one token, and on those of the tokens of a map.
  abbrev of_token : Felt → Note → ℕ
  of_token u n = if u == n.token then f n else 0

  abbrev or_skip : Option ℤ → ℕ → ℕ
  or_skip none k = 0
  or_skip (some _) k = k

  abbrev of_tokens : BTreeMap ℤ → Note → ℕ
  of_tokens entries n = or_skip (lookup n.token entries) (f n)

  sum-keep :
      (u : Felt) (ns : List Note) → sum_by f (keep (is_candidate u) ns) ≤ sum_by (of_token u) ns
  sum-keep u [] = omega arith
  sum-keep u (n ∷ ns) = ground (arith, sum-keep u ns)

  sum-cover_token :
      (notes : List Note) (u : Felt) (bal : ℤ) (s : List Note) (b : ℤ)
      → cover_token notes u bal ≡ ok (s, b)
      → sum_by f s ≤ sum_by (of_token u) notes
  unfolding candidates
  sum-cover_token notes u bal s b e = elim (cover_token-CoverStep notes u bal s b e) [
    | inl (_, p, _) ↦ rw p (omega arith)
    | inr (_, r, _) ↦ omega (
      arith,
      sum-spend (candidates u notes) s bal b r,
      sum-sort_desc (keep (is_candidate u) notes),
      sum-keep u notes,
    )
  ]

  split-tokens :
      (u : Felt) (bal : ℤ) (rest : BTreeMap ℤ) (notes : List Note)
      → Above u rest
      → sum_by (of_tokens ((u, bal) ∷ rest)) notes
        ≡ sum_by (of_token u) notes + sum_by (of_tokens rest) notes
  unfolding lookup
  split-tokens u bal rest [] o = omega arith
  split-tokens u bal rest (n ∷ notes) o =
      ground (arith, split-tokens u bal rest notes o, lookup-Above u u rest o)

  of_tokens-le :
      (entries : BTreeMap ℤ) (notes : List Note) → sum_by (of_tokens entries) notes ≤ sum_by f notes
  of_tokens-le entries [] = omega arith
  of_tokens-le entries (n ∷ notes) = ground (arith, of_tokens-le entries notes)

  sum-cover :
      (notes : List Note) (entries : BTreeMap ℤ) (spends s : List Note) (change c : BTreeMap ℕ)
      → IsSorted entries
      → cover notes entries spends change ≡ ok (s, c)
      → sum_by f s ≤ sum_by f spends + sum_by (of_tokens entries) notes
  unfolding cover
  sum-cover notes [] spends s change c o e = ground arith
  sum-cover notes ((u, bal) ∷ rest) spends s change c o e =
      let ((s₁, b), e₁, e₂) = >>=-eq-ok (cover_token notes u bal) _ e in
      omega (
        arith,
        sum-cover notes rest (spends ++ s₁) s _ c (IsSorted-of_Above u rest o) e₂,
        sum_by-append f spends s₁,
        sum-cover_token notes u bal s₁ b e₁,
        split-tokens u bal rest notes o,
      )

-- No note is spent more often than the state holds it.
pub cover-le :
    (notes : List Note) (entries : BTreeMap ℤ) (s : List Note) (c : BTreeMap ℕ)
    → IsSorted entries
    → cover notes entries [] [] ≡ ok (s, c)
    → (f : Note → ℕ) → sum_by f s ≤ sum_by f notes
cover-le notes entries s c o e f =
    omega (arith, sum-cover f notes entries [] s [] c o e, of_tokens-le f entries notes)

Fits-IsSpendable : (u : Felt) (s : List Note) → All (Fits u) s → All IsSpendable s
Fits-IsSpendable u [] h = tt
Fits-IsSpendable u (n ∷ s) h = ((h.0.1, h.0.2), Fits-IsSpendable u s h.1)

cover_token-IsSpendable :
    (notes : List Note) (u : Felt) (bal : ℤ) (s : List Note) (b : ℤ)
    → cover_token notes u bal ≡ ok (s, b)
    → All IsSpendable s
cover_token-IsSpendable notes u bal s b e = elim (cover_token-CoverStep notes u bal s b e) [
  | inl (_, p, _) ↦ rw p tt
  | inr (_, r, _) ↦
      Fits-IsSpendable u s
        (spend-All (Fits u) (candidates u notes) s bal b (candidates-Fits u notes) r)
]

pub cover-IsSpendable :
    (notes : List Note) (entries : BTreeMap ℤ) (spends s : List Note) (change c : BTreeMap ℕ)
    → All IsSpendable spends
    → cover notes entries spends change ≡ ok (s, c)
    → All IsSpendable s
unfolding cover
cover-IsSpendable notes [] spends s change c h e =
    rw (← (ap (λ (r : List Note × BTreeMap ℕ). r.0) (ok-injective e))) h
cover-IsSpendable notes ((u, bal) ∷ rest) spends s change c h e =
    let ((s₁, b), e₁, e₂) = >>=-eq-ok (cover_token notes u bal) _ e in
    cover-IsSpendable notes rest (spends ++ s₁) s _ c
      (All-append IsSpendable spends s₁ h (cover_token-IsSpendable notes u bal s₁ b e₁)) e₂

-- The change is a map with one entry for a token.
pub cover-IsSorted :
    (notes : List Note) (entries : BTreeMap ℤ) (spends s : List Note) (change c : BTreeMap ℕ)
    → IsSorted change
    → cover notes entries spends change ≡ ok (s, c)
    → IsSorted c
unfolding cover
cover-IsSorted notes [] spends s change c h e =
    rw (← (ap (λ (r : List Note × BTreeMap ℕ). r.1) (ok-injective e))) h
cover-IsSorted notes ((u, bal) ∷ rest) spends s change c h e =
    let ((s₁, b), e₁, e₂) = >>=-eq-ok (cover_token notes u bal) _ e in
    cover-IsSorted notes rest (spends ++ s₁) s _ c
      (ground (arith, insert-IsSorted u (pos_part b) change h)) e₂
