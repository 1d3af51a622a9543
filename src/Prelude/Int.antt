-- ===== src/Prelude/Int.antt =====
-- Signed integers, and the two's complement wrap of an `i128`.
use Prim.Native.Nat.{ℕ, suc, ◌+◌, ◌-◌, ◌%◌, ◌^◌, ◌≤◌, ◌<◌}
use mathlib.Core.Path.{◌≡◌}
use mathlib.Core.Bool.{Bool, true, false}
use native.Mathlib.Omega.{arith}
use strkd.Prelude.Tests.{ltb, leb, if◌then◌else◌}

-- `negsuc n` is -(n + 1).
pub data ℤ : Type 0 where
  pos : ℕ → ℤ
  negsuc : ℕ → ℤ

abbrev pub pos_part : ℤ → ℕ
pos_part (pos n) = n
pos_part (negsuc n) = 0

abbrev pub neg_part : ℤ → ℕ
neg_part (pos n) = 0
neg_part (negsuc n) = suc n

-- a - b, as an integer.
abbrev pub sub_ℕ : ℕ → ℕ → ℤ
sub_ℕ a b = if leb b a then pos (a - b) else negsuc (b - a - 1)

abbrev pub is_neg : ℤ → Bool
is_neg (pos n) = false
is_neg (negsuc n) = true

abbrev pub i128_half : ℕ
i128_half = 2 ^ 127

-- The `i128` that has the low 128 bits of `r`, for `r < 2 ^ 128`.
abbrev of_bits : ℕ → ℤ
of_bits r = if ltb r i128_half then pos r else negsuc (i128_half + i128_half - r - 1)

-- The value of an `i128` operation whose exact result is `z`: release builds wrap.
unfoldable pub wrap_i128 : ℤ → ℤ
wrap_i128 (pos n) = of_bits (n % (i128_half + i128_half))
wrap_i128 (negsuc n) = of_bits (i128_half + i128_half - 1 - n % (i128_half + i128_half))

infixl 65 ◌+ℤ◌ ◌-ℤ◌
-- `a + b` and `a - b` for an `i128` and an amount.
unfoldable pub ◌+ℤ◌ : ℤ → ℕ → ℤ
unfolding wrap_i128
a +ℤ n = wrap_i128 (sub_ℕ (pos_part a + n) (neg_part a))

unfoldable pub ◌-ℤ◌ : ℤ → ℕ → ℤ
unfolding wrap_i128
a -ℤ n = wrap_i128 (sub_ℕ (pos_part a) (neg_part a + n))

pub pos_part-wrap_i128 : (z : ℤ) → pos_part z < i128_half → neg_part z ≤ i128_half → wrap_i128 z ≡ z
unfolding wrap_i128
pos_part-wrap_i128 (pos n) h k = ground arith
pos_part-wrap_i128 (negsuc n) h k = ground arith

-- Within the range of `i128` the operations are exact.
pub +ℤ_parts :
    (a : ℤ) (n : ℕ)
    → pos_part a + n < i128_half
    → neg_part a ≤ i128_half
    → pos_part (a +ℤ n) + neg_part a ≡ neg_part (a +ℤ n) + pos_part a + n
unfolding ◌+ℤ◌
+ℤ_parts (pos m) n h k = ground arith
+ℤ_parts (negsuc m) n h k = ground arith

pub -ℤ_parts :
    (a : ℤ) (n : ℕ)
    → pos_part a < i128_half
    → neg_part a + n ≤ i128_half
    → pos_part (a -ℤ n) + neg_part a + n ≡ neg_part (a -ℤ n) + pos_part a
unfolding ◌-ℤ◌
-ℤ_parts (pos m) n h k = ground arith
-ℤ_parts (negsuc m) n h k = ground arith

pub +ℤ-parts_of_neg :
    (a : ℤ) (n : ℕ)
    → is_neg a ≡ true
    → n < i128_half
    → neg_part a ≤ i128_half
    → (neg_part (a +ℤ n) ≡ neg_part a - n) × (pos_part (a +ℤ n) ≡ n - neg_part a)
unfolding ◌+ℤ◌
+ℤ-parts_of_neg (pos m) n e h k = absurd (ground arith)
+ℤ-parts_of_neg (negsuc m) n e h k = (ground arith, ground arith)
