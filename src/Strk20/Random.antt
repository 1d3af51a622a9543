-- ===== src/Strk20/Random.antt =====
-- Drawing from a `Randomness` (crates/strk20/src/planner.rs): a computation takes the generator's
-- state and gives a value with the next state, or ends in a failure.
use strkd.Prelude.{ℕ, zero, suc, ◌≡◌, refl, true, false, ltb}
use strkd.Prelude.Result.{Result, ok, err, map_err}
use strkd.Strk20.Error.{Error, Failure, error, out_of_fuel}
use strkd.Strk20.Crypto.{open_note_salt}
use strkd.Strk20.Intent.{Randomness}

abbrev pub M : Type 0 → Type 0 → Type 0
M R A = R → Result Failure (A × R)

abbrev pub continue :
    {R A B : Type 0} → Result Failure (A × R) → (A → M R B) → Result Failure (B × R)
continue (ok (a, r)) f = f a r
continue (err e) f = err e

infixl 5 ◌>>=◌
abbrev pub ◌>>=◌ : {R A B : Type 0} → M R A → (A → M R B) → M R B
◌>>=◌ m f r = continue (m r) f

abbrev pub pure : {R A : Type 0} → A → M R A
pure a r = ok (a, r)

abbrev pub raise : {R A : Type 0} → Failure → M R A
raise e r = err e

abbrev pub lift : {R A : Type 0} → Result Error A → M R A
lift (ok a) r = ok (a, r)
lift (err e) r = err (error e)

-- A draw of the generator, whose errors are the planner's.
abbrev pub draw : {R A : Type 0} → (R → Result Error (A × R)) → M R A
draw f r = map_err error (f r)

-- The parts of a successful bind.
pub >>=-eq-ok :
    {R A B : Type 0} (m : M R A) (f : A → M R B) (r : R) {b : B} {r'' : R}
    → (m >>= f) r ≡ ok (b, r'')
    → (a : A) × (r' : R) × (m r ≡ ok (a, r')) × (f a r' ≡ ok (b, r''))
>>=-eq-ok {R} {A} {B} m f r {b} {r''} h = go (m r) refl h
  where
    go :
        (o : Result Failure (A × R))
        → m r ≡ o
        → continue o f ≡ ok (b, r'')
        → (a : A) × (r' : R) × (m r ≡ ok (a, r')) × (f a r' ≡ ok (b, r''))
    go (ok (a, r')) e k = (a, r', e, k)
    go (err x) e k = absurd (cc)

module _ {R : Type 0} (rng : Randomness R) where
  -- The loop of `note_salt`: it draws until a salt is above the one that marks an open note.
  unfoldable pub note_salt : ℕ → M R ℕ
  note_salt zero = raise out_of_fuel
  note_salt (suc fuel) = do
    salt ← draw rng.salt120
    elim (ltb open_note_salt salt) [ true ↦ pure salt | false ↦ note_salt fuel ]
