-- ===== src/WalletRpc/Auth/Tokens.antt =====
-- Which client a bearer token belongs to, before and after each operation of the store.
use strkd.Prelude.{
  ◌≡◌, inl, inr, refl, subst, ◌∙◌, String, Option, Bool, false, not, none, some, List, [], ◌∷◌,
  arith, if◌then◌else◌, keep, find, All, length, ◌==◌, Bool-cases,
}
use strkd.Prelude.Text.{text_eq-true, text_eq, text_eq_refl, text_eq_comm}
use strkd.WalletRpc.Auth.{
  ClientKind, PairedClient, ClientStore, persist, update_first, is_named, with_hash, revoke, pair,
  reattach, verify,
}
use strkd.WalletRpc.Auth.Lookup.{or_else, find-append, find-update_first_other}

-- No client has this hash.
abbrev pub Unheld : String → List PairedClient → Type 0
Unheld h = All λ c. text_eq c.token_hash h ≡ false

-- No two clients have the same hash.
abbrev pub DistinctHashes : List PairedClient → Type 0
DistinctHashes [] = Unit {0}
DistinctHashes (c ∷ cs) = Unheld c.token_hash cs × DistinctHashes cs

abbrev has_hash : String → PairedClient → Bool
has_hash h c = text_eq c.token_hash h

persist-clients : (written : Bool) (s : ClientStore) → (persist written s).clients ≡ s.clients
unfolding persist
persist-clients written s = ground arith

All-find :
    (P : PairedClient → Type 0) (p : PairedClient → Bool) (cs : List PairedClient)
    (c : PairedClient)
    → All P cs
    → find p cs ≡ some c
    → P c
All-find P p [] c h e = absurd (ground arith)
All-find P p (d ∷ cs) c h e = elim (Bool-cases (p d)) [
  | inl t ↦ subst P (ground arith) h.0
  | inr f ↦ All-find P p cs c h.1 (ground arith)
]

Unheld-find : (h : String) (cs : List PairedClient) → Unheld h cs → find (has_hash h) cs ≡ none
Unheld-find h [] u = refl
Unheld-find h (c ∷ cs) u = ground (arith, Unheld-find h cs u.1)

module _ (p : PairedClient → Bool) (h : String) where
  found_new :
      (cs : List PairedClient) (c : PairedClient)
      → find p cs ≡ some c
      → Unheld h cs
      → find (has_hash h) (update_first p (with_hash h) cs) ≡ some (with_hash h c)
  unfolding update_first
  found_new [] c e u = ground arith
  found_new (d ∷ cs) c e u = ground (arith, text_eq_refl h, found_new cs c)

  lost_old :
      (cs : List PairedClient) (c : PairedClient)
      → find p cs ≡ some c
      → Unheld h cs
      → DistinctHashes cs
      → find (has_hash c.token_hash) (update_first p (with_hash h) cs) ≡ none
  unfolding update_first
  lost_old [] c e u d = ground arith
  lost_old (b ∷ cs) c e u d = elim (Bool-cases (p b)) [
    | inl t ↦
        let q : b ≡ c = ground arith in
        let k : text_eq h c.token_hash ≡ false =
          text_eq_comm h c.token_hash ∙ subst (λ z. text_eq z.token_hash h ≡ false) q u.0 in
        let r = Unheld-find c.token_hash cs (subst (λ z. Unheld z.token_hash cs) q d.0) in
        rw t (rw k r)
    | inr f ↦
        let e' : find p cs ≡ some c = ground arith in
        let k = All-find (λ z. text_eq z.token_hash b.token_hash ≡ false) p cs c d.0 e' in
        let r = lost_old cs c e' u.1 d.1 in rw f (rw (text_eq_comm b.token_hash c.token_hash ∙ k) r)
  ]

revoke-clients :
    (written : Bool) (id : String) (s : ClientStore)
    → (revoke written id s).0.clients ≡ keep (λ c. not (text_eq c.id id)) s.clients
unfolding revoke
revoke-clients written id s =
    elim (Bool-cases (length (keep (λ c. not (text_eq c.id id)) s.clients) == length s.clients)) [
      | inl e ↦ rw e refl
      | inr e ↦ rw e (persist-clients written _)
    ]

reattach-clients :
    (hash_token : String → String) (written : Bool) (token name : String) (kind : ClientKind)
    (s : ClientStore) (c : PairedClient)
    → find (is_named name kind) s.clients ≡ some c
    → ((reattach hash_token written token name kind s).1 ≡ some c.id)
      × ((reattach hash_token written token name kind s).0.clients
          ≡ update_first (is_named name kind) (with_hash (hash_token token)) s.clients)
unfolding reattach
reattach-clients hash_token written token name kind s c e =
    rw (reattach, e) (refl, persist-clients written _)

-- What is left of an answer when the client with the id is gone.
abbrev pub unless_id : String → Option PairedClient → Option PairedClient
unless_id id none = none
unless_id id (some c) = if text_eq c.id id then none else some c

find-none-keep :
    (p q : PairedClient → Bool) (cs : List PairedClient)
    → find p cs ≡ none
    → find p (keep q cs) ≡ none
find-none-keep p q [] e = refl
find-none-keep p q (c ∷ cs) e = ground (arith, find-none-keep p q cs)

find_other :
    (id h : String) (cs : List PairedClient)
    → DistinctHashes cs
    → find (has_hash h) (keep (λ c. not (text_eq c.id id)) cs) ≡ unless_id id (find (has_hash h) cs)
find_other id h [] d = refl
find_other id h (c ∷ cs) d = elim (Bool-cases (text_eq c.token_hash h)) [
  | inl e ↦
      let u = subst (λ g. Unheld g cs) (text_eq-true c.token_hash h e) d.0 in
      let n = find-none-keep (has_hash h) (λ b. not (text_eq b.id id)) cs (Unheld-find h cs u) in
      elim (Bool-cases (text_eq c.id id)) [ inl f ↦ rw (f, e, f) n | inr f ↦ rw (f, e, f) refl ]
  | inr e ↦
      let r = find_other id h cs d.1 in
      elim (Bool-cases (text_eq c.id id)) [ inl f ↦ rw (f, e) r | inr f ↦ rw (f, e) r ]
]

module _ (hash_token : String → String) (written : Bool) where
  -- Where the stored hashes differ, after `revoke id` a token belongs to whom it did, or to nobody if
  -- that was the client with the id.
  pub verify-revoke :
      (id t : String) (s : ClientStore)
      → DistinctHashes s.clients
      → verify hash_token t (revoke written id s).0 ≡ unless_id id (verify hash_token t s)
  unfolding verify
  verify-revoke id t s d =
      rw (revoke-clients written id s) (find_other id (hash_token t) s.clients d)

  -- After `pair` a token that belonged to a client still does. Any other token belongs to the new
  -- client if it has the new token's hash, and to nobody otherwise.
  pub verify-pair :
      (id token label : String) (kind : ClientKind) (t : String) (s : ClientStore)
      → verify hash_token t (pair hash_token written id token label kind s)
        ≡ or_else (verify hash_token t s) (
            if text_eq (hash_token token) (hash_token t)
            then some (record {
              id = id;
              label = label;
              kind = kind;
              granted_until = none;
              token_hash = hash_token token;
            })
            else none)
  unfolding verify pair
  verify-pair id token label kind t s =
      rw (persist-clients written _) (find-append (has_hash (hash_token t)) s.clients _)

  -- Where a client has this name and kind, the stored hashes differ and none is that of the new
  -- token, `reattach` answers the client's id. Then a token with the new hash belongs to that client,
  -- unchanged but for its hash; a token with the old hash belongs to nobody; any other token belongs
  -- to whom it did.
  pub verify-reattach :
      (token name : String) (kind : ClientKind) (s : ClientStore) (c : PairedClient) (t : String)
      → find (is_named name kind) s.clients ≡ some c
      → Unheld (hash_token token) s.clients
      → DistinctHashes s.clients
      → ((reattach hash_token written token name kind s).1 ≡ some c.id)
        × (verify hash_token t (reattach hash_token written token name kind s).0 ≡ (
            if text_eq (hash_token token) (hash_token t)
            then some (with_hash (hash_token token) c)
            else if text_eq c.token_hash (hash_token t)
            then none
            else verify hash_token t s))
  unfolding verify
  verify-reattach token name kind s c t e u d =
      let (i, k) = reattach-clients hash_token written token name kind s c e in
      let p = is_named name kind in
      let h = hash_token token in
      let g = hash_token t in
      (
        i,
        rw k (elim (Bool-cases (text_eq h g)) [
          | inl f ↦ rw f (
              subst
                (λ z.
                  find (has_hash z) (update_first p (with_hash h) s.clients) ≡ some (with_hash h c))
                (text_eq-true h g f) (found_new p h s.clients c e u))
          | inr f ↦ elim (Bool-cases (text_eq c.token_hash g)) [
            | inl l ↦
                rw (f, l)
                  (subst (λ z. find (has_hash z) (update_first p (with_hash h) s.clients) ≡ none)
                    (text_eq-true c.token_hash g l) (lost_old p h s.clients c e u d))
            | inr l ↦
                rw (f, l) (find-update_first_other p (with_hash h) (has_hash g) s.clients c e l f)
          ]
        ]),
      )
