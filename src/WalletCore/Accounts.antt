-- ===== src/WalletCore/Accounts.antt =====
-- The account registry (crates/wallet-core/src/accounts.rs).
use strkd.Prelude.{
  ℕ, ◌+◌, ◌%◌, ◌^◌, ◌≤◌, ◌<◌, ◌≡◌, ◌≢◌, refl, sym, ap, subst, inl, inr, Bool-cases, String, Bool,
  true, false, not, Option, none, some, List, [], ◌∷◌, ◌++◌, arith, ltb, ◌==◌, if◌then◌else◌, keep,
  All, length, length-append, keep-append,
}
use mathlib.Core.List.{append-nil}
use strkd.Prelude.Text.{text_eq, text_eq_refl, text_eq-false}
use strkd.WalletCore.Domain.{Domain, user, agent}
use strkd.WalletCore.Contract.{AccountContract}

pub record AccountRef : Type 0 where
  pub domain : Domain
  pub index : ℕ
  pub address : String
  pub label : String
  pub contract : AccountContract
  pub owner_client_id : Option String

abbrev pub Registry : Type 0
Registry = List AccountRef

abbrev pub domain_eq : Domain → Domain → Bool
domain_eq user user = true
domain_eq agent agent = true
domain_eq _ _ = false

abbrev pub in_domain : Domain → AccountRef → Bool
in_domain d a = domain_eq a.domain d

-- `Iterator::max`
unfoldable pub max_index : List AccountRef → Option ℕ
max_index [] = none
max_index (a ∷ accounts) = elim (max_index accounts) [
  | none ↦ some a.index
  | some m ↦ some (if ltb a.index m then m else a.index)
]

-- `map_or(0, |m| m + 1)` on `u32`
abbrev pub after_max : Option ℕ → ℕ
after_max none = 0
after_max (some m) = (m + 1) % 2 ^ 32

unfoldable pub next_index : Registry → Domain → ℕ
next_index accounts d = after_max (max_index (keep (in_domain d) accounts))

unfoldable pub add : AccountRef → Registry → Registry
add a accounts = accounts ++ (a ∷ [])

unfoldable pub remove_by_address : String → Registry → Registry × Bool
remove_by_address address accounts =
    let left = keep (λ a. not (text_eq a.address address)) accounts in
    (left, not (length left == length accounts))

unfoldable pub user_accounts : Registry → List AccountRef
user_accounts = keep (in_domain user)

abbrev pub owned_by : String → AccountRef → Bool
owned_by cid a = elim a.owner_client_id [ none ↦ false | some o ↦ text_eq o cid ]

unfoldable pub scoped_for : Option String → Registry → List AccountRef
scoped_for none accounts = user_accounts accounts
scoped_for (some cid) accounts = keep (owned_by cid) accounts

-- No account of the branch has this index.
abbrev pub IsFree : Domain → ℕ → Registry → Type 0
IsFree d n = All λ a. a.domain ≡ d → a.index ≢ n

-- No index is the last one of a `u32`.
abbrev pub HasRoom : Registry → Type 0
HasRoom = All λ a. a.index + 1 < 2 ^ 32

abbrev Below : ℕ → List AccountRef → Type 0
Below n = All λ a. a.index < n

Below-mono : (m n : ℕ) (accounts : List AccountRef) → m ≤ n → Below m accounts → Below n accounts
Below-mono m n [] h b = tt
Below-mono m n (a ∷ accounts) h b = (omega arith, Below-mono m n accounts h b.1)

-- What a maximum says of the list.
abbrev Top : Option ℕ → List AccountRef → Type 0
Top none accounts = accounts ≡ []
Top (some m) accounts = (m + 1 < 2 ^ 32) × Below (m + 1) accounts

max_index-Top : (accounts : List AccountRef) → HasRoom accounts → Top (max_index accounts) accounts
unfolding max_index
max_index-Top [] h = refl
max_index-Top (a ∷ accounts) h = go (max_index accounts) (max_index-Top accounts h.1)
  where
    go :
        (o : Option ℕ)
        → Top o accounts
        → Top
            (elim o [ none ↦ some a.index | some m ↦ some (if ltb a.index m then m else a.index) ])
            (a ∷ accounts)
    go none t = (h.0, (omega arith, subst (Below (a.index + 1)) (sym t) tt))
    go (some m) t = ground (
      arith,
      t,
      h.0,
      Below-mono (m + 1) (a.index + 1) accounts,
      Below-mono (m + 1) (m + 1) accounts,
    )

Top-Below :
    (o : Option ℕ) (accounts : List AccountRef) → Top o accounts → Below (after_max o) accounts
Top-Below none accounts t = subst (Below 0) (sym t) tt
Top-Below (some m) accounts t = subst (λ n. Below n accounts) (omega (arith, t.0)) t.1

domain_eq_refl : (d : Domain) → domain_eq d d ≡ true
domain_eq_refl user = refl
domain_eq_refl agent = refl

Below-IsFree :
    (d : Domain) (n : ℕ) (accounts : Registry)
    → Below n (keep (in_domain d) accounts)
    → IsFree d n accounts
Below-IsFree d n [] b = tt
Below-IsFree d n (a ∷ accounts) b = elim (Bool-cases (domain_eq a.domain d)) [
  | inl t ↦
      let q : keep (in_domain d) (a ∷ accounts) ≡ a ∷ keep (in_domain d) accounts = rw t refl in
      let b' : Below n (a ∷ keep (in_domain d) accounts) = subst (Below n) q b in
      (λ p e. absurd (omega arith), Below-IsFree d n accounts b'.1)
  | inr f ↦
      let q : keep (in_domain d) (a ∷ accounts) ≡ keep (in_domain d) accounts = rw f refl in
      (
        λ p. absurd (ground (arith, subst (λ e. domain_eq e d ≡ false) p f, domain_eq_refl d)),
        Below-IsFree d n accounts (subst (Below n) q b),
      )
]

keep-HasRoom :
    (d : Domain) (accounts : Registry) → HasRoom accounts → HasRoom (keep (in_domain d) accounts)
keep-HasRoom d [] h = tt
keep-HasRoom d (a ∷ accounts) h = ground (arith, h, keep-HasRoom d accounts h.1)

-- The index that `next_index` gives is not in use in the branch.
pub next_index-IsFree :
    (d : Domain) (accounts : Registry)
    → HasRoom accounts
    → IsFree d (next_index accounts d) accounts
unfolding next_index
next_index-IsFree d accounts h =
    let o = max_index (keep (in_domain d) accounts) in
    Below-IsFree d (after_max o) accounts (
      Top-Below o (keep (in_domain d) accounts)
        (max_index-Top (keep (in_domain d) accounts) (keep-HasRoom d accounts h)))

keep-others :
    (address : String) (accounts : Registry)
    → All (λ b. b.address ≢ address) accounts
    → keep (λ b. not (text_eq b.address address)) accounts ≡ accounts
keep-others address [] h = refl
keep-others address (b ∷ accounts) h =
    rw (text_eq-false b.address address h.0)
      (ap (λ (z : Registry). b ∷ z) (keep-others address accounts h.1))

-- Where no account has the new one's address, removing by that address undoes `add`.
pub remove_by_address-add :
    (a : AccountRef) (accounts : Registry)
    → All (λ b. b.address ≢ a.address) accounts
    → remove_by_address a.address (add a accounts) ≡ (accounts, true)
unfolding remove_by_address add
remove_by_address-add a accounts h =
    let others = keep-others a.address accounts h in
    rw (keep-append, others, text_eq_refl a.address, append-nil)
      (ground (arith, length-append accounts (a ∷ [])))
