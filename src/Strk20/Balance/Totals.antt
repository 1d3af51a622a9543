-- ===== src/Strk20/Balance/Totals.antt =====
-- What the balance map holds for each token, and what spending adds to it.
use strkd.Prelude.{
  ℕ, ◌+◌, ◌≤◌, ◌<◌, ◌≡◌, ◌≢◌, ◌⊎◌, inl, inr, refl, ap, true, false, List, [], ◌∷◌, ◌++◌, arith,
  ◌==◌, if◌then◌else◌, keep, sum_by, sum_by-append, All,
}
use strkd.Prelude.Int.{
  ℤ, pos, negsuc, pos_part, neg_part, is_neg, i128_half, ◌+ℤ◌, ◌-ℤ◌, +ℤ_parts, -ℤ_parts,
}
use strkd.Prelude.Map.{BTreeMap, insert, lookup-insert, IsSorted, insert-IsSorted}
use strkd.Prelude.Result.{ok, ok-injective, Result-cases}
use strkd.Felt.{Felt}
use strkd.Strk20.Discovery.{Note}
use strkd.Strk20.Balance.{
  signed, balance_of, add_deposits, sub_outflows, insert_desc, sort_desc, candidates, is_candidate,
  spend, cover_token,
}

-- The sums of the amounts of one token.
abbrev pub deposited : Felt → List (Felt × ℕ) → ℕ
deposited t = sum_by (λ d. if d.0 == t then d.1 else 0)

abbrev pub outgoing : Felt → List (Felt × Felt × ℕ) → ℕ
outgoing t = sum_by (λ d. if d.1 == t then d.2 else 0)

pub outgoing-append :
    (t : Felt) (os ps : List (Felt × Felt × ℕ))
    → outgoing t (os ++ ps) ≡ outgoing t os + outgoing t ps
outgoing-append t os ps = sum_by-append _ os ps

abbrev pub worth : Felt → List Note → ℕ
worth t = sum_by (λ n. if n.token == t then n.amount else 0)

abbrev pub total : List Note → ℕ
total = sum_by (λ n. n.amount)

pub add_deposits-balance_of :
    (t : Felt) (ds : List (Felt × ℕ)) (m m' : BTreeMap ℤ)
    → pos_part (balance_of m t) + deposited t ds < i128_half
    → neg_part (balance_of m t) ≤ i128_half
    → add_deposits ds m ≡ ok m'
    → pos_part (balance_of m' t) + neg_part (balance_of m t)
      ≡ neg_part (balance_of m' t) + pos_part (balance_of m t) + deposited t ds
unfolding add_deposits signed
add_deposits-balance_of t [] m m' h k e = ground arith
add_deposits-balance_of t ((token, amount) ∷ ds) m m' h k e =
    let m₁ = insert token (balance_of m token +ℤ amount) m in
    ground (
      arith,
      add_deposits-balance_of t ds m₁ m',
      lookup-insert token t (balance_of m token +ℤ amount) m,
      +ℤ_parts (balance_of m t) amount,
    )

pub sub_outflows-balance_of :
    (t : Felt) (os : List (Felt × Felt × ℕ)) (m m' : BTreeMap ℤ)
    → pos_part (balance_of m t) < i128_half
    → neg_part (balance_of m t) + outgoing t os ≤ i128_half
    → sub_outflows os m ≡ ok m'
    → pos_part (balance_of m' t) + neg_part (balance_of m t) + outgoing t os
      ≡ neg_part (balance_of m' t) + pos_part (balance_of m t)
unfolding sub_outflows signed
sub_outflows-balance_of t [] m m' h k e = ground arith
sub_outflows-balance_of t ((to, token, amount) ∷ os) m m' h k e =
    let m₁ = insert token (balance_of m token -ℤ amount) m in
    ground (
      arith,
      sub_outflows-balance_of t os m₁ m',
      lookup-insert token t (balance_of m token -ℤ amount) m,
      -ℤ_parts (balance_of m t) amount,
    )

pub add_deposits-IsSorted :
    (ds : List (Felt × ℕ)) (m m' : BTreeMap ℤ)
    → IsSorted m
    → add_deposits ds m ≡ ok m'
    → IsSorted m'
unfolding add_deposits signed
add_deposits-IsSorted [] m m' s e = ground arith
add_deposits-IsSorted ((token, amount) ∷ ds) m m' s e =
    let m₁ = insert token (balance_of m token +ℤ amount) m in
    ground (
      arith,
      add_deposits-IsSorted ds m₁ m',
      insert-IsSorted token (balance_of m token +ℤ amount) m s,
    )

pub sub_outflows-IsSorted :
    (os : List (Felt × Felt × ℕ)) (m m' : BTreeMap ℤ)
    → IsSorted m
    → sub_outflows os m ≡ ok m'
    → IsSorted m'
unfolding sub_outflows signed
sub_outflows-IsSorted [] m m' s e = ground arith
sub_outflows-IsSorted ((to, token, amount) ∷ os) m m' s e =
    let m₁ = insert token (balance_of m token -ℤ amount) m in
    ground (
      arith,
      sub_outflows-IsSorted os m₁ m',
      insert-IsSorted token (balance_of m token -ℤ amount) m s,
    )

-- Every candidate is of the token, encrypted and not empty.
abbrev pub Fits : Felt → Note → Type 0
Fits t n = (n.token ≡ t) × (n.is_open ≡ false) × (0 < n.amount)

pub insert_desc-All {κ} :
    (P : Note → Type κ) (n : Note) (ms : List Note) → P n → All P ms → All P (insert_desc n ms)
unfolding insert_desc
insert_desc-All P n [] p h = (p, tt)
insert_desc-All P n (m ∷ ms) p h = ground (arith, insert_desc-All P n ms p h.1)

sort_desc-All {κ} : (P : Note → Type κ) (ns : List Note) → All P ns → All P (sort_desc ns)
unfolding sort_desc
sort_desc-All P [] h = tt
sort_desc-All P (n ∷ ns) h = insert_desc-All P n (sort_desc ns) h.0 (sort_desc-All P ns h.1)

keep-Fits : (t : Felt) (ns : List Note) → All (Fits t) (keep (is_candidate t) ns)
keep-Fits t [] = tt
keep-Fits t (n ∷ ns) = ground (arith, keep-Fits t ns)

pub candidates-Fits : (t : Felt) (ns : List Note) → All (Fits t) (candidates t ns)
unfolding candidates
candidates-Fits t ns = sort_desc-All (Fits t) (keep (is_candidate t) ns) (keep-Fits t ns)

total-insert_desc : (n : Note) (ms : List Note) → total (insert_desc n ms) ≡ n.amount + total ms
unfolding insert_desc
total-insert_desc n [] = refl
total-insert_desc n (m ∷ ms) = ground (arith, total-insert_desc n ms)

pub total-sort_desc : (ns : List Note) → total (sort_desc ns) ≡ total ns
unfolding sort_desc
total-sort_desc [] = refl
total-sort_desc (n ∷ ns) = omega (arith, total-insert_desc n (sort_desc ns), total-sort_desc ns)

total-keep : (t : Felt) (ns : List Note) → total (keep (is_candidate t) ns) ≤ total ns
total-keep t [] = omega arith
total-keep t (n ∷ ns) = ground (arith, total-keep t ns)

pub total-candidates : (t : Felt) (ns : List Note) → total (candidates t ns) ≤ total ns
unfolding candidates
total-candidates t ns = omega (arith, total-sort_desc (keep (is_candidate t) ns), total-keep t ns)

-- A step of the loop: it stops, or takes the note and goes on.
abbrev pub SpendStep : Note → List Note → ℤ → List Note → ℤ → Type 0
SpendStep n ns bal s b =
    ((is_neg bal ≡ false) × (s ≡ []) × (b ≡ bal))
    ⊎ ((s' : List Note) × (is_neg bal ≡ true)
        × (n.amount < i128_half)
        × (s ≡ n ∷ s')
        × (spend ns (bal +ℤ n.amount) ≡ ok (s', b)))

pub spend-SpendStep :
    (n : Note) (ns : List Note) (bal : ℤ) (s : List Note) (b : ℤ)
    → spend (n ∷ ns) bal ≡ ok (s, b)
    → SpendStep n ns bal s b
unfolding spend signed
spend-SpendStep n ns (pos m) s b e = inl (refl, ground arith, ground arith)
spend-SpendStep n ns (negsuc m) s b e = elim (Result-cases (spend ns (negsuc m +ℤ n.amount))) [
  | inl ((s', b'), r) ↦ inr (s', refl, ground arith, ground arith, ground arith)
  | inr (x, r) ↦ absurd (ground arith)
]

-- Spending moves the balance by exactly what was taken.
pub spend-total :
    (ns s : List Note) (bal b : ℤ)
    → pos_part bal + total ns < i128_half
    → neg_part bal ≤ i128_half
    → spend ns bal ≡ ok (s, b)
    → pos_part b + neg_part bal ≡ neg_part b + pos_part bal + total s
unfolding spend
spend-total [] s bal b h k e = ground arith
spend-total (n ∷ ns) s bal b h k e = elim (spend-SpendStep n ns bal s b e) [
  | inl (_, p, q) ↦ rw (p, q) (omega arith)
  | inr (s', neg, fits, p, r) ↦
      rw p (ground (arith, spend-total ns s' (bal +ℤ n.amount) b, +ℤ_parts bal n.amount))
]

pub spend-All {κ} :
    (P : Note → Type κ) (ns s : List Note) (bal b : ℤ)
    → All P ns
    → spend ns bal ≡ ok (s, b)
    → All P s
unfolding spend
spend-All P [] s bal b h e = rw (← (ap (λ (r : List Note × ℤ). r.0) (ok-injective e))) tt
spend-All P (n ∷ ns) s bal b h e = elim (spend-SpendStep n ns bal s b e) [
  | inl (_, p, q) ↦ rw p tt
  | inr (s', neg, fits, p, r) ↦ rw p (h.0, spend-All P ns s' (bal +ℤ n.amount) b h.1 r)
]

worth-Fits :
    (t u : Felt) (s : List Note) → All (Fits u) s → worth t s ≡ (if u == t then total s else 0)
worth-Fits t u [] h = ground arith
worth-Fits t u (n ∷ s) h = ground (arith, worth-Fits t u s h.1)

-- A token that is settled: nothing is due, or the candidates cover what is.
abbrev pub CoverStep : List Note → Felt → ℤ → List Note → ℤ → Type 0
CoverStep notes u bal s b =
    ((is_neg bal ≡ false) × (s ≡ []) × (b ≡ bal))
    ⊎ ((is_neg bal ≡ true) × (spend (candidates u notes) bal ≡ ok (s, b)) × (is_neg b ≡ false))

pub cover_token-CoverStep :
    (notes : List Note) (u : Felt) (bal : ℤ) (s : List Note) (b : ℤ)
    → cover_token notes u bal ≡ ok (s, b)
    → CoverStep notes u bal s b
unfolding cover_token
cover_token-CoverStep notes u (pos m) s b e = inl (refl, ground arith, ground arith)
cover_token-CoverStep notes u (negsuc m) s b e =
    elim (Result-cases (spend (candidates u notes) (negsuc m))) [
      | inl ((s', b'), r) ↦ inr (refl, ground arith, ground arith)
      | inr (x, r) ↦ absurd (ground arith)
    ]

Fits-token : (u : Felt) (s : List Note) → All (Fits u) s → (t : Felt) → u ≢ t → worth t s ≡ 0
Fits-token u s h t n = ground (arith, worth-Fits t u s h)

-- For one token: what is spent is of that token, fills the deficit exactly, and leaves the rest.
pub cover_token-worth :
    (notes : List Note) (u : Felt) (bal : ℤ) (s : List Note) (b : ℤ)
    → pos_part bal + total notes < i128_half
    → neg_part bal ≤ i128_half
    → cover_token notes u bal ≡ ok (s, b)
    → (neg_part b ≡ 0)
      × (pos_part b + neg_part bal ≡ pos_part bal + worth u s)
      × ((t : Felt) → u ≢ t → worth t s ≡ 0)
cover_token-worth notes u bal s b h k e = elim (cover_token-CoverStep notes u bal s b e) [
  | inl (p, q, r) ↦ rw (q, r) (ground arith, ground arith, λ t n. refl)
  | inr (p, r, q) ↦
      let fits = spend-All (Fits u) (candidates u notes) s bal b (candidates-Fits u notes) r in
      let sum =
        spend-total (candidates u notes) s bal b (omega (arith, total-candidates u notes)) k r in
      (ground arith, ground (arith, sum, worth-Fits u u s fits), Fits-token u s fits)
]
