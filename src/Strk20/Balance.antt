-- ===== src/Strk20/Balance.antt =====
-- The balance of each token, and the notes that cover a deficit (crates/strk20/src/planner.rs).
pub mod Totals
pub mod Conservation
pub mod Spending
pub mod Greedy
use strkd.Prelude.{
  ℕ, ◌+◌, ◌*◌, ◌%◌, ◌^◌, Bool, true, false, not, ◌&&◌, ◌||◌, Option, none, some, List, [], ◌∷◌,
  ◌++◌, ltb, leb, ◌==◌, if◌then◌else◌, keep, sum_by,
}
use strkd.Prelude.Int.{ℤ, pos, negsuc, pos_part, neg_part, is_neg, i128_half, ◌+ℤ◌, ◌-ℤ◌}
use strkd.Prelude.Map.{BTreeMap, lookup, insert}
use strkd.Prelude.Result.{Result, ok, err, ◌>>=◌, ◌>>◌}
use strkd.Felt.{Felt}
use strkd.Strk20.Error.{Error, insufficient_balance, zero_amount, read, not_registered}
use strkd.Strk20.Discovery.{Note}
use strkd.Strk20.Intent.{Intent, State}

unfoldable pub nonzero : ℕ → Result Error (Unit {0})
nonzero amount = if amount == 0 then err zero_amount else ok tt

unfoldable pub deposits_nonzero : List (Felt × ℕ) → Result Error (Unit {0})
deposits_nonzero [] = ok tt
deposits_nonzero ((_, amount) ∷ rest) = do nonzero amount; deposits_nonzero rest

unfoldable pub outflows_nonzero : List (Felt × Felt × ℕ) → Result Error (Unit {0})
outflows_nonzero [] = ok tt
outflows_nonzero ((_, _, amount) ∷ rest) = do nonzero amount; outflows_nonzero rest

-- `i128::try_from`
unfoldable pub signed : ℕ → Result Error ℕ
signed a = if ltb a i128_half then ok a else err (read "amount exceeds i128")

-- The value at a key, as `entry(token).or_default()` reads it.
abbrev pub or_zero : Option ℤ → ℤ
or_zero none = pos 0
or_zero (some z) = z

abbrev pub balance_of : BTreeMap ℤ → Felt → ℤ
balance_of m token = or_zero (lookup token m)

unfoldable pub add_deposits : List (Felt × ℕ) → BTreeMap ℤ → Result Error (BTreeMap ℤ)
add_deposits [] m = ok m
add_deposits ((token, amount) ∷ rest) m = do
  a ← signed amount
  add_deposits rest (insert token (balance_of m token +ℤ a) m)

unfoldable pub sub_outflows : List (Felt × Felt × ℕ) → BTreeMap ℤ → Result Error (BTreeMap ℤ)
sub_outflows [] m = ok m
sub_outflows ((_, token, amount) ∷ rest) m = do
  a ← signed amount
  sub_outflows rest (insert token (balance_of m token -ℤ a) m)

unfoldable pub balances : Intent → Result Error (BTreeMap ℤ)
balances intent = do
  m ← add_deposits intent.deposits []
  sub_outflows (intent.transfers ++ intent.withdrawals) m

-- `sort_by_key(Reverse(amount))`, a stable sort.
unfoldable pub insert_desc : Note → List Note → List Note
insert_desc n [] = n ∷ []
insert_desc n (m ∷ ms) =
    let rest = insert_desc n ms in if leb m.amount n.amount then n ∷ m ∷ ms else m ∷ rest

unfoldable pub sort_desc : List Note → List Note
unfolding insert_desc
sort_desc [] = []
sort_desc (n ∷ ns) = insert_desc n (sort_desc ns)

abbrev pub is_candidate : Felt → Note → Bool
is_candidate token n = n.token == token && not n.is_open && ltb 0 n.amount

unfoldable pub candidates : Felt → List Note → List Note
candidates token notes = sort_desc (keep (is_candidate token) notes)

-- The loop that takes notes while the balance is negative: what it took, and the balance then.
unfoldable pub spend : List Note → ℤ → Result Error (List Note × ℤ)
spend [] bal = ok ([], bal)
spend (note ∷ rest) bal = elim (is_neg bal) [
  | false ↦ ok ([], bal)
  | true ↦ do a ← signed note.amount; r ← spend rest (bal +ℤ a); ok (note ∷ r.0, r.1)
]

-- `iter().filter(...).map(amount).sum()` in `u128`.
abbrev pub available : Felt → List Note → ℕ
available token notes = sum_by (λ n. n.amount) (keep (λ n. n.token == token) notes) % 2 ^ 128

unfoldable pub cover_token : List Note → Felt → ℤ → Result Error (List Note × ℤ)
cover_token notes token bal =
    if is_neg bal
    then (do
      r ← spend (candidates token notes) bal
      if is_neg r.1
          then err (insufficient_balance token (neg_part r.1) (available token notes))
          else ok r)
    else ok ([], bal)

-- The loop over the balances, in key order. `spends` and `change` are what it has gathered.
unfoldable pub cover :
    List Note → BTreeMap ℤ → List Note → BTreeMap ℕ → Result Error (List Note × BTreeMap ℕ)
cover notes [] spends change = ok (spends, change)
cover notes ((token, bal) ∷ rest) spends change = do
  r ← cover_token notes token bal
  let left = pos_part r.1
  cover notes rest (spends ++ r.0) (if ltb 0 left then insert token left change else change)

-- The amounts' guards of `plan`, the balances and the notes that cover them.
unfoldable pub settle_registered : Intent → State → Result Error (List Note × BTreeMap ℕ)
settle_registered intent state = do
  deposits_nonzero intent.deposits
  outflows_nonzero (intent.transfers ++ intent.withdrawals)
  m ← balances intent
  cover state.notes m [] []

-- All of `plan` that needs no randomness.
unfoldable pub settle : Intent → State → Result Error (List Note × BTreeMap ℕ)
settle intent state =
    if intent.register || state.registered
    then settle_registered intent state
    else err (not_registered state.user)
