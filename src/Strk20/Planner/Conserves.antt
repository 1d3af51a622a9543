-- ===== src/Strk20/Planner/Conserves.antt =====
-- What the actions of a plan pay in and out, and create (crates/strk20/src/planner.rs).
use strkd.Prelude.{
  ℕ, ◌≡◌, ◌≢◌, refl, List, [], ◌∷◌, ◌++◌, map, arith, ◌==◌, if◌then◌else◌, sum_by, All,
}
use strkd.Prelude.Int.{ℤ}
use strkd.Prelude.Map.{BTreeMap, lookup, IsSorted, IsSorted-of_Above, lookup-Above}
use strkd.Prelude.Result.{ok, >>=-eq-ok}
use strkd.Felt.{Felt}
use strkd.Strk20.Actions.{ClientAction, deposit, withdraw, rank, phase}
use strkd.Strk20.Discovery.{Note}
use strkd.Strk20.Intent.{Intent, State}
use strkd.Strk20.Balance.{
  balances, cover, settle, deposits_nonzero, outflows_nonzero, settle_registered,
}
use strkd.Strk20.Balance.Totals.{deposited, outgoing}
use strkd.Strk20.Balance.Conservation.{change_of}
use strkd.Strk20.Build.Indices.{created, InPhase}
use strkd.Strk20.Planner.{deposit_actions}
use strkd.Strk20.Planner.Parts.{Withdraws}

-- The amount of a token that an action moves into the pool, and out of it.
abbrev pub paid_in : Felt → ClientAction → ℕ
paid_in t (deposit token amount) = if token == t then amount else 0
paid_in t _ = 0

abbrev pub paid_out : Felt → ClientAction → ℕ
paid_out t (withdraw _ token amount _) = if token == t then amount else 0
paid_out t _ = 0

settle_registered-cover :
    (intent : Intent) (state : State) (s : List Note) (c : BTreeMap ℕ)
    → settle_registered intent state ≡ ok (s, c)
    → (m : BTreeMap ℤ) × (balances intent ≡ ok m) × (cover state.notes m [] [] ≡ ok (s, c))
unfolding settle_registered
settle_registered-cover intent state s c e =
    let (_, _, e₁) = >>=-eq-ok (deposits_nonzero intent.deposits) _ e in
    let (_, _, e₂) = >>=-eq-ok (outflows_nonzero (intent.transfers ++ intent.withdrawals)) _ e₁ in
    >>=-eq-ok (balances intent) _ e₂

-- A successful settlement had balances, and covered them.
pub settle-cover :
    (intent : Intent) (state : State) (s : List Note) (c : BTreeMap ℕ)
    → settle intent state ≡ ok (s, c)
    → (m : BTreeMap ℤ) × (balances intent ≡ ok m) × (cover state.notes m [] [] ≡ ok (s, c))
unfolding settle
settle-cover intent state s c e = settle_registered-cover intent state s c (ground arith)

-- An amount that only actions of phase `j` have is 0 over the actions of another phase.
pub sum-off_phase :
    (f : ClientAction → ℕ) (j k : ℕ)
    → ((a : ClientAction) → rank (phase a) ≢ j → f a ≡ 0)
    → k ≢ j
    → (acts : List ClientAction) → All (InPhase k) acts
    → sum_by f acts ≡ 0
sum-off_phase f j k off n [] h = refl
sum-off_phase f j k off n (a ∷ acts) h =
    omega (arith, off a (λ e. n (omega arith)), sum-off_phase f j k off n acts h.1)

module _ (t : Felt) where
  pub paid_in_off : (a : ClientAction) → rank (phase a) ≢ 3 → paid_in t a ≡ 0
  paid_in_off a h = ground arith

  pub paid_out_off : (a : ClientAction) → rank (phase a) ≢ 6 → paid_out t a ≡ 0
  paid_out_off a h = ground arith

  pub created_off : (a : ClientAction) → rank (phase a) ≢ 5 → created t a ≡ 0
  created_off a h = ground arith

  pub paid_in-deposits :
      (ds : List (Felt × ℕ)) → sum_by (paid_in t) (deposit_actions ds) ≡ deposited t ds
  paid_in-deposits [] = refl
  paid_in-deposits (d ∷ ds) = omega (arith, paid_in-deposits ds)

  pub paid_out-withdrawals :
      (os : List (Felt × Felt × ℕ)) (ws : List ClientAction)
      → Withdraws os ws
      → sum_by (paid_out t) ws ≡ outgoing t os
  paid_out-withdrawals [] [] h = refl
  paid_out-withdrawals [] (w ∷ ws) h = absurd h
  paid_out-withdrawals (o ∷ os) [] h = absurd h
  paid_out-withdrawals ((to_addr, token, amount) ∷ os) (w ∷ ws) ((random, p), h) =
      rw p (omega (arith, paid_out-withdrawals os ws h))

  pub outgoing-change :
      (user : Felt) (c : BTreeMap ℕ)
      → IsSorted c
      → outgoing t (map (λ e. (user, e.0, e.1)) c) ≡ change_of c t
  unfolding lookup
  outgoing-change user [] o = refl
  outgoing-change user ((u, n) ∷ c) o =
      ground (arith, outgoing-change user c (IsSorted-of_Above u c o), lookup-Above u u c o)
