-- ===== src/WalletRpc/Dispatch/Declared.antt =====
-- Which contract class and which class hash a declaration signs.
use strkd.Prelude.{◌≡◌, ◌⊎◌, Option, none, some, arith}
use strkd.Prelude.Json.{Value, object, array, text, number, other_number, bool, null, get}
use strkd.Prelude.Result.{Result, ok, ◌>>=◌, >>=-eq-ok}
use strkd.Felt.{Felt}
use strkd.WalletRpc.Auth.{PairedClient}
use strkd.WalletRpc.Dispatch.Params.{felt_from}
use strkd.WalletRpc.Dispatch.PrepareDeclare.{
  SierraClass, DeclarePlan, class_of, given_class_hash, class_hash_of, prepare_declare,
}
use strkd.WalletRpc.Dispatch.Scope.{InScope, Yields, yields_rules}
use strkd.WalletRpc.Dispatch.Scoped.{prepare_declare-InScope}
use strkd.WalletRpc.Error.{WalletRpcError}
use strkd.WalletRpc.Session.{Host, core}
use strkd.WalletRpc.State.{ServerState}

-- What an entry of a request reads as: nothing only if it is absent or null.
module _ {A : Type 0} where
  abbrev pub Entry : (Value → Result WalletRpcError A) → Option Value → Option A → Type 0
  Entry read none o = o ≡ none
  Entry read (some null) o = o ≡ none
  Entry read (some v) o = (a : A) × (read v ≡ ok a) × (o ≡ some a)

module _ (h : Host) (classes : SierraClass) where
  -- The hash of the class where there is one, which a given hash must equal; or else the given hash.
  abbrev pub Settled : Option Value → Option Felt → Felt → Type 0
  Settled none given x = given ≡ some x
  Settled (some cc) given x = (x ≡ classes.class_hash cc) × ((given ≡ none) ⊎ (given ≡ some x))

  -- The class of the plan is the one that the request holds, and the hash is settled from it and the
  -- hash that the request holds.
  abbrev pub Agrees : Value → Option Value → Felt → Type 0
  Agrees params contract_class class_hash =
      (given : Option Felt) × Entry (λ v. core h (classes.from_json v))
        (get params "contract_class") contract_class
      × Entry (λ v. felt_from h.formats v "class_hash") (get params "class_hash") given
      × Settled contract_class given class_hash

  class_hash_of-Settled :
      (cc : Option Value) (given : Option Felt) (x : Felt)
      → class_hash_of h classes cc given ≡ ok x
      → Settled cc given x
  unfolding class_hash_of
  class_hash_of-Settled none none x e = absurd (ground (arith, e))
  class_hash_of-Settled none (some given) x e = ground (arith, e)
  class_hash_of-Settled (some cc) none x e = ground (arith, e)
  class_hash_of-Settled (some cc) (some given) x e = ground (arith, e)

  module _ {A : Type 0} where
    read_some :
        (r : Result WalletRpcError A) (o : Option A)
        → (r >>= λ a. ok (some a)) ≡ ok o
        → (a : A) × (r ≡ ok a) × (o ≡ some a)
    read_some r o e = let (a, p, q) = >>=-eq-ok r (λ a. ok (some a)) e in (a, p, ground (arith, q))

  class_of-Entry :
      (v : Option Value) (cc : Option Value)
      → class_of h classes v ≡ ok cc
      → Entry (λ v. core h (classes.from_json v)) v cc
  class_of-Entry none cc e = ground (arith, e)
  class_of-Entry (some null) cc e = ground (arith, e)
  class_of-Entry (some (object x)) cc e = read_some _ cc e
  class_of-Entry (some (array x)) cc e = read_some _ cc e
  class_of-Entry (some (text x)) cc e = read_some _ cc e
  class_of-Entry (some (number x)) cc e = read_some _ cc e
  class_of-Entry (some (other_number x)) cc e = read_some _ cc e
  class_of-Entry (some (bool x)) cc e = read_some _ cc e

  given_class_hash-Entry :
      (v : Option Value) (given : Option Felt)
      → given_class_hash h classes v ≡ ok given
      → Entry (λ v. felt_from h.formats v "class_hash") v given
  given_class_hash-Entry none given e = ground (arith, e)
  given_class_hash-Entry (some null) given e = ground (arith, e)
  given_class_hash-Entry (some (object x)) given e = read_some _ given e
  given_class_hash-Entry (some (array x)) given e = read_some _ given e
  given_class_hash-Entry (some (text x)) given e = read_some _ given e
  given_class_hash-Entry (some (number x)) given e = read_some _ given e
  given_class_hash-Entry (some (other_number x)) given e = read_some _ given e
  given_class_hash-Entry (some (bool x)) given e = read_some _ given e

  Agrees-intro :
      (params : Value) (cc : Option Value) (given : Option Felt) (x : Felt)
      → class_of h classes (get params "contract_class") ≡ ok cc
      → given_class_hash h classes (get params "class_hash") ≡ ok given
      → class_hash_of h classes cc given ≡ ok x
      → Agrees params cc x
  Agrees-intro params cc given x a b c = (
    given,
    class_of-Entry _ cc a,
    given_class_hash-Entry _ given b,
    class_hash_of-Settled cc given x c,
  )

  agreeing :
      (client : PairedClient) (params : Value) (st : ServerState)
      → Yields
          (λ p. Agrees params p.contract_class p.class_hash)
          (prepare_declare h classes client params st)
  unfolding prepare_declare
  agreeing client params st = search (Agrees-intro, yields_rules) depth 20

  -- What a declaration is prepared to sign. The plan has a contract class exactly if the request has
  -- one that is not null, and then it is what that one reads as, the class hash is that class's, and a
  -- hash that the request names is the same. Without a class the hash is the one that the request
  -- names. The account is in the caller's scope.
  pub prepare_declare-Agrees :
      (client : PairedClient) (params : Value) (st : ServerState) (p : DeclarePlan)
      → prepare_declare h classes client params st ≡ ok p
      → Agrees params p.contract_class p.class_hash × InScope client p.account
  prepare_declare-Agrees client params st p e = (
    (agreeing client params st).at p e,
    (prepare_declare-InScope h client params st classes).at p e,
  )
