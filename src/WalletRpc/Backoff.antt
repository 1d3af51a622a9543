-- ===== src/WalletRpc/Backoff.antt =====
-- The delay after wrong passphrases (crates/wallet-rpc/src/backoff.rs). Times and durations are in
-- nanoseconds, the resolution of `Instant` and `Duration`.
use strkd.Prelude.{
  ℕ, zero, suc, ◌+◌, ◌-◌, ◌*◌, ◌^◌, ◌≤◌, ◌<◌, ◌≡◌, subst, refl, ap, inl, inr, Bool-cases, leb,
  Option, none, some, arith, min, ltb, if◌then◌else◌,
}
use native.Mathlib.Nat.{pow-le-pow_right}
use strkd.Prelude.Result.{Result, ok, err}

abbrev pub seconds : ℕ → ℕ
seconds n = n * 1000000000

abbrev pub u32_max : ℕ
u32_max = 2 ^ 32 - 1

abbrev pub free_attempts : ℕ
free_attempts = 3

abbrev pub base_delay : ℕ
base_delay = seconds 5

abbrev pub max_delay : ℕ
max_delay = seconds 300

pub record PassphraseBackoff : Type 0 where
  pub failures : ℕ
  pub until : Option ℕ

abbrev pub default : PassphraseBackoff
default = record { failures = 0; until = none }

-- The wait is left while a delay is in force.
unfoldable pub check : PassphraseBackoff → ℕ → Result ℕ (Unit {0})
check b now = elim b.until [ none ↦ ok tt | some t ↦ if ltb now t then err (t - now) else ok tt ]

-- `u32::saturating_add`
abbrev saturating_suc : ℕ → ℕ
saturating_suc n = min (n + 1) u32_max

-- The delay of the miss that makes the count `failures`, above the free ones. Its product is far
-- below the largest `Duration`, so `saturating_mul` does not saturate.
unfoldable pub delay_of : ℕ → ℕ
delay_of failures = min (base_delay * 2 ^ min (failures - free_attempts - 1) 16) max_delay

unfoldable pub record_failure : ℕ → PassphraseBackoff → PassphraseBackoff
record_failure now b =
    let failures = saturating_suc b.failures in
    if ltb free_attempts failures
    then record { failures = failures; until = some (now + delay_of failures) }
    else record b { failures = failures }

unfoldable pub record_success : PassphraseBackoff → PassphraseBackoff
record_success b = default

-- `n` misses, all at the time `now`.
unfoldable pub misses : ℕ → ℕ → PassphraseBackoff
misses now zero = default
misses now (suc n) = record_failure now (misses now n)

-- The cap on the doublings does not show.
delay_of-min : (k : ℕ) → delay_of (4 + k) ≡ min (base_delay * 2 ^ k) max_delay
unfolding delay_of
delay_of-min k = elim (Bool-cases (leb k 16)) [
  | inl t ↦
      let q : min (4 + k - 3 - 1) 16 ≡ k = ground arith in
      ap (λ j. min (base_delay * 2 ^ j) max_delay) q
  | inr f ↦
      let h : 16 < k = ground arith in
      let q : min (4 + k - 3 - 1) 16 ≡ 16 = omega arith in
      let l : 2 ^ 16 ≤ 2 ^ k =
        pow-le-pow_right {n = 2} (omega arith) {i = 16} {j = k} (omega arith) in
      rw q (omega arith)
]

misses-failures : (now n : ℕ) → n ≤ u32_max → (misses now n).failures ≡ n
unfolding misses record_failure
misses-failures now zero h = refl
misses-failures now (suc n) h = ground (arith, misses-failures now n)

misses-free : (now n : ℕ) → n ≤ free_attempts → (misses now n).until ≡ none
unfolding misses record_failure
misses-free now zero h = refl
misses-free now (suc n) h = ground (arith, misses-free now n, misses-failures now n)

misses-until :
    (now k : ℕ)
    → 4 + k ≤ u32_max
    → (misses now (4 + k)).until ≡ some (now + min (base_delay * 2 ^ k) max_delay)
unfolding misses record_failure
misses-until now k h =
    let f = misses-failures now (3 + k) (omega arith) in
    let d = delay_of-min k in ground (arith, f, d, ap delay_of f)

-- Five seconds, doubled after each miss beyond the fourth, and at most 300.
abbrev pub wait_of : ℕ → ℕ
wait_of n = min (base_delay * 2 ^ (n - 4)) max_delay

check-late :
    (now later n : ℕ)
    → 3 < n
    → n ≤ u32_max
    → check (misses now n) later
      ≡ (if ltb later (now + wait_of n) then err (now + wait_of n - later) else ok tt)
unfolding check
check-late now later n h k =
    let q : 4 + (n - 4) ≡ n = omega arith in
    let u : (misses now n).until ≡ some (now + wait_of n) =
      subst (λ j. (misses now j).until ≡ some (now + wait_of n)) q
        (misses-until now (n - 4) (omega arith)) in
    rw u refl

-- After `n` misses at one time, at most three of them free, `check` lets the next attempt pass at
-- once. After more it refuses, with the time that is left, until 5 seconds, doubled after each miss
-- beyond the fourth, or 300 seconds if that is less, have passed; and then lets it pass. After a
-- success it lets it pass.
pub check-misses :
    (now later n : ℕ)
    → n ≤ u32_max
    → (check (misses now n) later ≡ (
        if leb n free_attempts
        then ok tt
        else if ltb later (now + wait_of n)
        then err (now + wait_of n - later)
        else ok tt))
      × (check (record_success (misses now n)) later ≡ ok tt)
unfolding check record_success
check-misses now later n h = elim (Bool-cases (leb n free_attempts)) [
  | inl e ↦ (rw (e, misses-free now n (ground arith)) refl, refl)
  | inr e ↦ (rw e (check-late now later n (ground arith) h), refl)
]
