-- ===== src/Strk20/Planner/Total.antt =====
-- How `plan` ends, on every path (crates/strk20/src/planner.rs).
use strkd.Prelude.{
  ℕ, zero, suc, ◌<◌, ◌≡◌, ◌⊎◌, inl, inr, refl, Bool, true, false, some, List, [], ◌∷◌, arith, ltb,
  Bool-cases, Option-cases,
}
use strkd.Prelude.Map.{BTreeMap, lookup, insert, lookup-insert}
use strkd.Prelude.Result.{Result, ok, err, map_err}
use strkd.Felt.{Felt, External}
use strkd.Strk20.Error.{Error, Failure, error, panic, out_of_fuel}
use strkd.Strk20.Crypto.{open_note_salt}
use strkd.Strk20.Discovery.{Subchannel, OutgoingChannel}
use strkd.Strk20.Intent.{Intent, State, Randomness}
use strkd.Strk20.Balance.{settle}
use strkd.Strk20.Random.{M, continue, lift, draw, note_salt}
use strkd.Strk20.Build.{
  Build, fresh_subchannel, sub_opened, open_fresh, ensure_channel, open_fresh_sub,
  ensure_subchannel, note_fresh, create_note, on_channel, place_note, place_notes,
}
use strkd.Strk20.Build.Steps.{
  HasOpen, EnsureStep-HasOpen, ensure_channel-EnsureStep, open_fresh_sub-sub_opened,
}
use strkd.Strk20.Planner.{
  register_self, begin, registers, withdraw_actions, plan, registered_start, new_notes,
}

-- A value, or an error that the code returns.
abbrev pub Settles : {A : Type 0} → Result Failure A → Type 0
Settles (ok a) = Unit {0}
Settles (err (error e)) = Unit {0}
Settles (err panic) = ◌≡◌ {A = Bool} true false
Settles (err out_of_fuel) = ◌≡◌ {A = Bool} true false

-- A draw that fails, or gives a good salt, or leaves the generator in a state with `P`.
abbrev pub GoodDraw : {R : Type 0} → (R → Type 0) → Result Error (ℕ × R) → Type 0
GoodDraw P (err e) = Unit {0}
GoodDraw P (ok (salt, r)) = (open_note_salt < salt) ⊎ P r

-- From this state of the generator, one of the next draws gives a good salt or fails.
abbrev pub GoodWithin : {R : Type 0} → Randomness R → ℕ → R → Type 0
GoodWithin rng zero r = ◌≡◌ {A = Bool} true false
GoodWithin rng (suc n) r = GoodDraw (GoodWithin rng n) (rng.salt120 r)

bind-Settles :
    {R A B : Type 0} (o : Result Failure (A × R)) (f : A → M R B)
    → Settles o
    → ((a : A) (r : R) → o ≡ ok (a, r) → Settles (f a r))
    → Settles (continue o f)
bind-Settles (ok (a, r)) f h k = k a r refl
bind-Settles (err (error e)) f h k = tt
bind-Settles (err panic) f h k = absurd (cc)
bind-Settles (err out_of_fuel) f h k = absurd (cc)

draw-Settles : {R A : Type 0} (o : Result Error (A × R)) → Settles (map_err error o)
draw-Settles (ok a) = tt
draw-Settles (err e) = tt

lift-Settles : {R A : Type 0} (o : Result Error A) (r : R) → Settles (lift o r)
lift-Settles (ok a) r = tt
lift-Settles (err e) r = tt

-- The channel map has the recipient, and a subchannel for the token.
abbrev Known : Felt → Build → Type 0
Known recipient b = (c : OutgoingChannel) × (lookup recipient b.channels ≡ some c)

abbrev HasSub : Felt → Felt → Build → Type 0
HasSub recipient token b =
    (c : OutgoingChannel) × (sub : Subchannel) × (lookup recipient b.channels ≡ some c)
    × (lookup token c.subchannels ≡ some sub)

lookup-insert_same :
    {V : Type 0} (k : ℕ) (v : V) (m : BTreeMap V) → lookup k (insert k v m) ≡ some v
lookup-insert_same k v m = ground (arith, lookup-insert k k v m)

module _ {R : Type 0} (rng : Randomness R) where
  abbrev next_draw : ℕ → ℕ → Bool → M R ℕ
  next_draw n salt b = elim b [ true ↦ λ s. ok (salt, s) | false ↦ note_salt rng n ]

  next_draw-Settles :
      (n : ℕ)
      → ((s : R) → GoodWithin rng n s → Settles (note_salt rng n s))
      → (salt : ℕ) (s : R) (b : Bool) → ltb open_note_salt salt ≡ b
      → (open_note_salt < salt) ⊎ GoodWithin rng n s
      → Settles (next_draw n salt b s)
  next_draw-Settles n k salt s true e h = tt
  next_draw-Settles n k salt s false e (inl l) = absurd (ground arith)
  next_draw-Settles n k salt s false e (inr g) = k s g

  drawn-Settles :
      (n : ℕ)
      → ((s : R) → GoodWithin rng n s → Settles (note_salt rng n s))
      → (o : Result Error (ℕ × R)) → GoodDraw (GoodWithin rng n) o
      → Settles (continue (map_err error o) λ salt. next_draw n salt (ltb open_note_salt salt))
  drawn-Settles n k (err e) h = tt
  drawn-Settles n k (ok (salt, s)) h = next_draw-Settles n k salt s (ltb open_note_salt salt) refl h

  note_salt-Settles : (fuel : ℕ) (r : R) → GoodWithin rng fuel r → Settles (note_salt rng fuel r)
  unfolding note_salt
  note_salt-Settles zero r g = absurd (cc)
  note_salt-Settles (suc n) r g = drawn-Settles n (note_salt-Settles n) (rng.salt120 r) g

  ensure_channel-Settles :
      (b : Build) (recipient : Felt) (r : R) → Settles (ensure_channel rng b recipient r)
  unfolding ensure_channel open_fresh
  ensure_channel-Settles b recipient r = elim (Option-cases (lookup recipient b.channels)) [
    | inl e ↦ rw (ensure_channel, e) tt
    | inr (c, e) ↦ elim (Bool-cases c.is_open) [
      | inl f ↦ rw (ensure_channel, e, f) tt
      | inr f ↦
          rw (ensure_channel, e, f)
            (bind-Settles (draw rng.felt r) _ (draw-Settles (rng.felt r)) λ random s g.
              bind-Settles (draw rng.felt s) _ (draw-Settles (rng.felt s)) λ salt t h. tt)
    ]
  ]

  on_channel-Settles :
      (b : Build) (recipient token : Felt) (r : R)
      → HasOpen rng b recipient
      → Settles (on_channel rng b recipient token r)
  unfolding on_channel ensure_subchannel open_fresh_sub
  on_channel-Settles b recipient token r (c, e, _) =
      elim (Option-cases (lookup token c.subchannels)) [
        | inl f ↦
            rw (on_channel, e, ensure_subchannel, f)
              (bind-Settles (draw rng.felt r) _ (draw-Settles (rng.felt r)) λ salt s g. tt)
        | inr (sub, f) ↦ rw (on_channel, e, ensure_subchannel, f) tt
      ]

  on_channel-HasSub :
      (b b₁ : Build) (recipient token : Felt) (r r₁ : R)
      → HasOpen rng b recipient
      → on_channel rng b recipient token r ≡ ok (b₁, r₁)
      → HasSub recipient token b₁
  unfolding on_channel ensure_subchannel sub_opened
  on_channel-HasSub b b₁ recipient token r r₁ (c, found, _) e =
      elim (Option-cases (lookup token c.subchannels)) [
        | inl missing ↦
            let f : open_fresh_sub rng b recipient token c r ≡ ok (b₁, r₁) = ground arith in
            let (salt, p) = open_fresh_sub-sub_opened rng b b₁ recipient token c r r₁ f in
            let c₁ : OutgoingChannel = record c {
              subchannels = insert token (fresh_subchannel c) c.subchannels;
            } in
            (
              c₁,
              fresh_subchannel c,
              rw p (lookup-insert_same recipient c₁ b.channels),
              lookup-insert_same token (fresh_subchannel c) c.subchannels,
            )
        | inr (sub, present) ↦ let p : b₁ ≡ b = ground arith in (c, sub, rw p found, present)
      ]

  create_note-Settles :
      (fuel : ℕ) (b : Build) (recipient token : Felt) (amount : ℕ) (r : R)
      → HasSub recipient token b
      → GoodWithin rng fuel r
      → Settles (create_note rng fuel b recipient token amount r)
  unfolding create_note note_fresh
  create_note-Settles fuel b recipient token amount r (c, sub, e, f) g =
      rw (create_note, e, f)
        (bind-Settles (note_salt rng fuel r) _ (note_salt-Settles fuel r g) λ salt s h. tt)

  module _ (fuel : ℕ) (good : (r : R) → GoodWithin rng fuel r) where
    place_note-Settles :
        (b : Build) (n : Felt × Felt × ℕ) (r : R) → Settles (place_note rng fuel b n r)
    unfolding place_note
    place_note-Settles b (recipient, token, amount) r =
        bind-Settles (ensure_channel rng b recipient r) _ (ensure_channel-Settles b recipient r)
          λ c s e.
            let has_open =
              EnsureStep-HasOpen rng b c recipient
                (ensure_channel-EnsureStep rng b c recipient r s e) in
            bind-Settles (on_channel rng c recipient token s) _
              (on_channel-Settles c recipient token s has_open)
              λ d t f.
                create_note-Settles fuel d recipient token amount t
                  (on_channel-HasSub c d recipient token s t has_open f) (good t)

    place_notes-Settles :
        (b : Build) (ns : List (Felt × Felt × ℕ)) (r : R) → Settles (place_notes rng fuel b ns r)
    unfolding place_notes
    place_notes-Settles b [] r = tt
    place_notes-Settles b (n ∷ ns) r =
        bind-Settles (place_note rng fuel b n r) _ (place_note-Settles b n r)
          λ c s e. place_notes-Settles c ns s

module _ (x : External) {R : Type 0} (rng : Randomness R) where
  withdraw_actions-Settles :
      (ws : List (Felt × Felt × ℕ)) (r : R) → Settles (withdraw_actions x rng ws r)
  unfolding withdraw_actions
  withdraw_actions-Settles [] r = tt
  withdraw_actions-Settles ((to_addr, token, amount) ∷ ws) r =
      bind-Settles (draw rng.felt r) _ (draw-Settles (rng.felt r)) λ random s e.
        bind-Settles (withdraw_actions x rng ws s) _ (withdraw_actions-Settles ws s) λ acts t f. tt

  begin-Settles : (intent : Intent) (state : State) (r : R) → Settles (begin x rng intent state r)
  unfolding begin register_self
  begin-Settles intent state r = elim (Bool-cases (registers intent state)) [
    | inr f ↦ rw (begin, f) tt
    | inl f ↦
        rw (begin, f)
          (bind-Settles (draw rng.felt r) _ (draw-Settles (rng.felt r)) λ random s e.
            bind-Settles (ensure_channel rng (registered_start x state) state.user s) _
              (ensure_channel-Settles rng (registered_start x state) state.user s) λ b t g. tt)
  ]

  -- Where, from every state of the generator, one of the next `fuel` draws of a salt is above 1 or
  -- fails, `plan` ends with a plan or with an error of the crate: no `expect` of it panics, and its
  -- loop for a salt ends within the fuel.
  pub plan-Settles :
      (fuel : ℕ) (intent : Intent) (state : State)
      → ((r : R) → GoodWithin rng fuel r)
      → (r : R) → Settles (plan x rng fuel intent state r)
  unfolding plan
  plan-Settles fuel intent state good r =
      bind-Settles (lift (settle intent state) r) _ (lift-Settles (settle intent state) r)
        λ (spends, change) s e.
          bind-Settles (begin x rng intent state s) _ (begin-Settles intent state s)
            λ (account, b₀) t f.
              bind-Settles (place_notes rng fuel b₀ (new_notes intent state change) t) _
                (place_notes-Settles rng fuel good b₀ (new_notes intent state change) t)
                λ b u g.
                  bind-Settles (withdraw_actions x rng intent.withdrawals u) _
                    (withdraw_actions-Settles intent.withdrawals u) λ ws v h. tt
