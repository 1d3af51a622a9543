-- ===== src/WalletRpc/Auth/Lookup.antt =====
-- Searching a list of clients that changes.
use strkd.Prelude.{
  ◌≡◌, refl, Bool, true, false, Option, none, some, List, [], ◌∷◌, ◌++◌, arith, ltb, keep, find,
  length, ◌==◌,
}
use strkd.WalletRpc.Auth.{PairedClient, update_first}

abbrev pub or_else {ℓ} : {A : Type ℓ} → Option A → Option A → Option A
or_else none o = o
or_else (some a) o = some a

module _ {A : Type 0} (p q : A → Bool) where
  pub find-keep : (xs : List A) (c : A) → find p (keep q xs) ≡ some c → q c ≡ true
  find-keep [] c e = ground arith
  find-keep (x ∷ xs) c e = ground (arith, find-keep xs c)

  pub find_in-keep :
      (xs : List A) (c : A) → find p xs ≡ some c → q c ≡ true → find p (keep q xs) ≡ some c
  find_in-keep [] c e h = ground arith
  find_in-keep (x ∷ xs) c e h = ground (arith, find_in-keep xs c)

module _ {A : Type 0} (p : A → Bool) where
  pub find-append : (xs ys : List A) → find p (xs ++ ys) ≡ or_else (find p xs) (find p ys)
  find-append [] ys = refl
  find-append (x ∷ xs) ys = ground (arith, find-append xs ys)

module _ {A : Type 0} (q : A → Bool) where
  keep-le : (xs : List A) → ltb (length xs) (length (keep q xs)) ≡ false
  keep-le [] = refl
  keep-le (x ∷ xs) = ground (arith, keep-le xs)

  -- A filter that keeps the length keeps the list.
  pub keep-all : (xs : List A) → (length (keep q xs) == length xs) ≡ true → keep q xs ≡ xs
  keep-all [] e = refl
  keep-all (x ∷ xs) e = ground (arith, keep-all xs, keep-le xs)

module _ (p : PairedClient → Bool) (f : PairedClient → PairedClient) where
  -- Where the search fails nothing is changed.
  pub update_first-none : (cs : List PairedClient) → find p cs ≡ none → update_first p f cs ≡ cs
  unfolding update_first
  update_first-none [] e = refl
  update_first-none (c ∷ cs) e = ground (arith, update_first-none cs)

  -- A search that neither the old nor the new element answers is not disturbed.
  pub find-update_first_other :
      (r : PairedClient → Bool) (cs : List PairedClient) (c : PairedClient)
      → find p cs ≡ some c
      → r c ≡ false
      → r (f c) ≡ false
      → find r (update_first p f cs) ≡ find r cs
  unfolding update_first
  find-update_first_other r [] c e h k = refl
  find-update_first_other r (d ∷ cs) c e h k = ground (arith, find-update_first_other r cs c)
