-- ===== src/Prelude/Map.antt =====
-- `std::collections::BTreeMap` with number keys: an association list that `insert` keeps in
-- ascending key order, which is the order of iteration.
use Prim.Native.Nat.{ℕ}
use mathlib.Core.Path.{◌≡◌, refl}
use mathlib.Core.Bool.{true, false}
use mathlib.Core.Option.{Option, none, some}
use mathlib.Core.List.{List, [], ◌∷◌}
use native.Mathlib.Omega.{arith}
use strkd.Prelude.Tests.{ltb, ◌==◌, if◌then◌else◌}

abbrev pub BTreeMap {ℓ} : Type ℓ → Type ℓ
BTreeMap V = List (ℕ × V)

module _ {ℓ} {V : Type ℓ} where
  unfoldable pub lookup : ℕ → BTreeMap V → Option V
  lookup k [] = none
  lookup k ((j, v) ∷ m) = let rest = lookup k m in if j == k then some v else rest

  unfoldable pub insert : ℕ → V → BTreeMap V → BTreeMap V
  insert k v [] = (k, v) ∷ []
  insert k v ((j, w) ∷ m) =
      let rest = insert k v m in
      if j == k then (k, v) ∷ m else if ltb k j then (k, v) ∷ (j, w) ∷ m else (j, w) ∷ rest

  pub lookup-insert :
      (k i : ℕ) (v : V) (m : BTreeMap V)
      → lookup i (insert k v m) ≡ (if k == i then some v else lookup i m)
  unfolding lookup insert
  lookup-insert k i v [] = refl
  lookup-insert k i v ((j, w) ∷ m) = ground (arith, lookup-insert k i v m)

  -- Keys in strictly ascending order, all above a bound where one is given.
  abbrev pub Above : ℕ → BTreeMap V → Type 0
  Above b [] = Unit {0}
  Above b ((j, v) ∷ m) = (ltb b j ≡ true) × Above j m

  abbrev pub IsSorted : BTreeMap V → Type 0
  IsSorted [] = Unit {0}
  IsSorted ((j, v) ∷ m) = Above j m

  insert-Above :
      (b k : ℕ) (v : V) (m : BTreeMap V) → ltb b k ≡ true → Above b m → Above b (insert k v m)
  unfolding insert
  insert-Above b k v [] h s = (h, tt)
  insert-Above b k v ((j, w) ∷ m) h s = ground (arith, insert-Above j k v m)

  pub insert-IsSorted : (k : ℕ) (v : V) (m : BTreeMap V) → IsSorted m → IsSorted (insert k v m)
  unfolding insert
  insert-IsSorted k v [] s = tt
  insert-IsSorted k v ((j, w) ∷ m) s = ground (arith, insert-Above j k v m)

  pub lookup-Above : (b k : ℕ) (m : BTreeMap V) → Above b m → ltb b k ≡ false → lookup k m ≡ none
  unfolding lookup
  lookup-Above b k [] s h = refl
  lookup-Above b k ((j, v) ∷ m) s h = ground (arith, lookup-Above j k m s.1)

  pub IsSorted-of_Above : (b : ℕ) (m : BTreeMap V) → Above b m → IsSorted m
  IsSorted-of_Above b [] s = tt
  IsSorted-of_Above b ((j, v) ∷ m) s = s.1
