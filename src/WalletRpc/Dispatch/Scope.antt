-- ===== src/WalletRpc/Dispatch/Scope.antt =====
-- Whose accounts the handlers prepare.
use strkd.Prelude.{
  ℕ, String, ◌≡◌, refl, subst, inl, inr, Bool, true, Option, none, some, List, [], ◌∷◌, arith,
  Bool-cases, Option-cases, find, keep,
}
use strkd.Prelude.Text.{text_eq, text_eq-true}
use strkd.Prelude.Result.{Result, ok, ◌>>=◌, >>=-eq-ok, ok-injective, ok_or}
use strkd.WalletCore.Accounts.{
  AccountRef, Registry, scoped_for, owned_by, user_accounts, in_domain, domain_eq,
}
use strkd.WalletCore.Domain.{Domain}
use strkd.WalletRpc.Auth.{ClientKind, PairedClient}
use strkd.WalletRpc.Dispatch.Params.{scope_for, normalize_address}
use strkd.WalletRpc.Dispatch.Resolve.{find_scoped, first_scoped, scoped_account, named_or_first}
use strkd.WalletRpc.Dispatch.PrepareFunding.{manager_index_of}
use strkd.WalletRpc.Error.{WalletRpcError}
use strkd.Prelude.Json.{Value}
use strkd.WalletRpc.Session.{Host, registry}
use strkd.WalletRpc.Session.Keyring.{manager_account}
use strkd.WalletRpc.State.{ServerState}

-- An agent's own accounts, and an app's user accounts.
abbrev pub InScope : PairedClient → AccountRef → Type 0
InScope client a = elim client.kind [
  | ClientKind.agent ↦ a.owner_client_id ≡ some client.id
  | ClientKind.app ↦ a.domain ≡ Domain.user
]

-- A successful result has the property.
pub record Yields {A : Type 0} (P : A → Type 0) (r : Result WalletRpcError A) : Type 0 where
  pub at : (a : A) → r ≡ ok a → P a

module _ {A B : Type 0} (P : B → Type 0) where
  pub Yields-bind :
      (r : Result WalletRpcError A) (f : A → Result WalletRpcError B)
      → ((a : A) → r ≡ ok a → Yields P (f a))
      → Yields P (r >>= f)
  Yields-bind r f k = record { at = λ b e. let (a, p, q) = >>=-eq-ok r f e in (k a p).at b q }

module _ {A : Type 0} (P : A → Type 0) where
  pub Yields-ok : (a : A) → P a → Yields P (ok a)
  Yields-ok a p = record { at = λ b e. subst P (ok-injective e) p }

  pub Yields-ok_or :
      (x : WalletRpcError) (o : Option A) → ((a : A) → o ≡ some a → P a) → Yields P (ok_or x o)
  Yields-ok_or x none k = record { at = λ b e. absurd (ground (arith, e)) }
  Yields-ok_or x (some a) k = record { at = λ b e. k b (ground (arith, e)) }

find-Holds :
    (p q : AccountRef → Bool) (accounts : List AccountRef) (a : AccountRef)
    → find p (keep q accounts) ≡ some a
    → q a ≡ true
find-Holds p q [] a e = absurd (ground (arith, e))
find-Holds p q (b ∷ accounts) a e = elim (Bool-cases (q b)) [
  | inr f ↦ find-Holds p q accounts a (ground (arith, e, f))
  | inl t ↦ elim (Bool-cases (p b)) [
    | inl u ↦ subst (λ z. q z ≡ true) (ground (arith, e, t, u)) t
    | inr u ↦ find-Holds p q accounts a (ground (arith, e, t, u))
  ]
]

abbrev first : List AccountRef → Option AccountRef
first accounts = elim accounts [ [] ↦ none | a ∷ _ ↦ some a ]

first-Holds :
    (q : AccountRef → Bool) (accounts : List AccountRef) (a : AccountRef)
    → first (keep q accounts) ≡ some a
    → q a ≡ true
first-Holds q [] a e = absurd (ground (arith, e))
first-Holds q (b ∷ accounts) a e = elim (Bool-cases (q b)) [
  | inr f ↦ first-Holds q accounts a (ground (arith, e, f))
  | inl t ↦ subst (λ z. q z ≡ true) (ground (arith, e, t)) t
]

-- The test by which accounts are scoped.
abbrev scope_test : PairedClient → AccountRef → Bool
scope_test client a = elim client.kind [
  | ClientKind.agent ↦ owned_by client.id a
  | ClientKind.app ↦ in_domain Domain.user a
]

scoped_for-keep :
    (client : PairedClient) (reg : Registry)
    → scoped_for (scope_for client) reg ≡ keep (scope_test client) reg
unfolding scoped_for scope_for user_accounts
scoped_for-keep client reg = go client.kind client.id
  where
    go :
        (kind : ClientKind) (id : String)
        → scoped_for
            (elim kind as (λ _. Option String) [
              | ClientKind.agent ↦ some id
              | ClientKind.app ↦ none
            ])
            reg
          ≡ keep
              (λ a. elim kind as (λ _. Bool) [
                | ClientKind.agent ↦ owned_by id a
                | ClientKind.app ↦ in_domain Domain.user a
              ])
              reg
    go ClientKind.agent id = refl
    go ClientKind.app id = refl

owned_by-true : (id : String) (a : AccountRef) → owned_by id a ≡ true → a.owner_client_id ≡ some id
owned_by-true id a h = elim (Option-cases a.owner_client_id) [
  | inl e ↦ absurd (ground (arith, e, h))
  | inr (o, e) ↦ ground (arith, e, h, text_eq-true o id)
]

in_domain-user : (d : Domain) → domain_eq d Domain.user ≡ true → d ≡ Domain.user
in_domain-user Domain.user h = refl
in_domain-user Domain.agent h = absurd (ground (arith, h))

scope_test-InScope :
    (client : PairedClient) (a : AccountRef) → scope_test client a ≡ true → InScope client a
scope_test-InScope client a = go client.kind client.id
  where
    go :
        (kind : ClientKind) (id : String)
        → elim kind as (λ _. Bool) [
          | ClientKind.agent ↦ owned_by id a
          | ClientKind.app ↦ in_domain Domain.user a
        ]
          ≡ true
        → elim kind as (λ _. Type 0) [
          | ClientKind.agent ↦ a.owner_client_id ≡ some id
          | ClientKind.app ↦ a.domain ≡ Domain.user
        ]
    go ClientKind.agent id = owned_by-true id a
    go ClientKind.app id = in_domain-user a.domain

module _ (client : PairedClient) (st : ServerState) where
  find_scoped-InScope :
      (want : String) (a : AccountRef) → find_scoped client want st ≡ ok (some a) → InScope client a
  unfolding find_scoped
  find_scoped-InScope want a e =
      let (reg, _, f) = >>=-eq-ok (registry st.session) _ e in
      scope_test-InScope client a (
        find-Holds (λ b. text_eq b.address want) (scope_test client) reg a
          (rw (← scoped_for-keep client reg) (ok-injective f)))

  first_scoped-InScope : (a : AccountRef) → first_scoped client st ≡ ok (some a) → InScope client a
  unfolding first_scoped
  first_scoped-InScope a e =
      let (reg, _, f) = >>=-eq-ok (registry st.session) _ e in
      scope_test-InScope client a
        (first-Holds (scope_test client) reg a (rw (← scoped_for-keep client reg) (ok-injective f)))

  pub scoped_account-InScope :
      (want : String) → Yields (InScope client) (scoped_account client want st)
  unfolding scoped_account
  scoped_account-InScope want = Yields-bind _ _ _ λ found e.
      Yields-ok_or _ _ found
        λ a f. find_scoped-InScope want a (subst (λ z. find_scoped client want st ≡ ok z) f e)

  pub named_or_first-InScope :
      (h : Host) (named : Option String) (a : AccountRef)
      → named_or_first h client named st ≡ ok (some a)
      → InScope client a
  unfolding named_or_first
  named_or_first-InScope h none a e = first_scoped-InScope a e
  named_or_first-InScope h (some s) a e =
      let (reg, _, f) = >>=-eq-ok (registry st.session) _ e in
      let (want, _, g) = >>=-eq-ok (normalize_address h.formats s) _ f in
      find_scoped-InScope want a g

-- What follows may use that the account is the caller's.
module _ {B : Type 0} (P : B → Type 0) (client : PairedClient) (st : ServerState) where
  pub Yields-scoped :
      (want : String) (f : AccountRef → Result WalletRpcError B)
      → ((a : AccountRef) → InScope client a → Yields P (f a))
      → Yields P (scoped_account client want st >>= f)
  Yields-scoped want f k =
      Yields-bind P (scoped_account client want st) f
        λ a e. k a ((scoped_account-InScope client st want).at a e)

  pub Yields-named :
      (h : Host) (named : Option String) (x : WalletRpcError)
      (f : AccountRef → Result WalletRpcError B)
      → ((a : AccountRef) → InScope client a → Yields P (f a))
      → Yields P (named_or_first h client named st >>= λ found. ok_or x found >>= f)
  Yields-named h named x f k =
      Yields-bind P (named_or_first h client named st) (λ found. ok_or x found >>= f)
        λ found e.
          Yields-bind P (ok_or x found) f
            λ a g. k a (named_or_first-InScope client st h named a (go found a e g))
    where
      go :
          (found : Option AccountRef) (a : AccountRef)
          → named_or_first h client named st ≡ ok found
          → ok_or x found ≡ ok a
          → named_or_first h client named st ≡ ok (some a)
      go none a e g = absurd (ground (arith, g))
      go (some b) a e g = ground (arith, e, g)

-- The account that the session derives as the manager whose index the request names.
abbrev pub Manager : Host → Value → ServerState → AccountRef → Type 0
Manager h params st a =
    (n : ℕ) × (manager_index_of params ≡ ok n) × (manager_account h n st.session ≡ ok a)

pub Manager-intro :
    (h : Host) (params : Value) (st : ServerState) (n : ℕ) (a : AccountRef)
    → manager_index_of params ≡ ok n
    → manager_account h n st.session ≡ ok a
    → Manager h params st a
Manager-intro h params st n a p q = (n, p, q)

pub ruleset yields_rules = (Manager-intro, Yields-scoped, Yields-named, Yields-bind, Yields-ok)
