-- ===== src/WalletRpc/Auth/Restart.antt =====
-- What a restart loads: the file of a store after any sequence of its operations.
use strkd.Prelude.{
  ◌≡◌, refl, ap, ℕ, String, true, not, Option, none, some, List, keep, find, length, ◌==◌,
  Bool-cases, Option-cases, inl, inr, sym, ◌∙◌,
}
use strkd.Prelude.Text.{text_eq}
use strkd.WalletRpc.Auth.{
  ClientKind, PairedClient, ClientStore, open_file, persist, has_id, is_named, set_grant, grant,
  revoke_grant, revoke, pair, reattach,
}
use strkd.WalletRpc.Auth.Lookup.{keep-all}

-- The file holds the clients.
abbrev IsSaved : ClientStore → Type 0
IsSaved s = s.file ≡ some s.clients

-- The operations of a store, each of whose writes succeeds.
pub data Uses (hash_token : String → String) : ClientStore → ClientStore → Type 0 where
  opened : (read : Option (List PairedClient)) → Uses hash_token (open_file read) (open_file read)
  paired :
      (id token label : String) (kind : ClientKind) (s t : ClientStore)
      → Uses hash_token s t
      → Uses hash_token s (pair hash_token true id token label kind t)
  granted :
      (id : String) (until_ms : ℕ) (s t : ClientStore)
      → Uses hash_token s t
      → Uses hash_token s (grant true id until_ms t).0
  grant_revoked :
      (id : String) (s t : ClientStore)
      → Uses hash_token s t
      → Uses hash_token s (revoke_grant true id t).0
  reattached :
      (token name : String) (kind : ClientKind) (s t : ClientStore)
      → Uses hash_token s t
      → Uses hash_token s (reattach hash_token true token name kind t).0
  revoked :
      (id : String) (s t : ClientStore)
      → Uses hash_token s t
      → Uses hash_token s (revoke true id t).0

persist-IsSaved :
    (s : ClientStore) (old : List PairedClient) → s.file ≡ some old → IsSaved (persist true s)
unfolding persist
persist-IsSaved s old e = rw (persist, e) refl

set_grant-IsSaved :
    (id : String) (g : Option ℕ) (s : ClientStore) → IsSaved s → IsSaved (set_grant true id g s).0
unfolding set_grant
set_grant-IsSaved id g s h = elim (Option-cases (find (has_id id) s.clients)) [
  | inl e ↦ rw (set_grant, e) h
  | inr (c, e) ↦ rw (set_grant, e) (persist-IsSaved _ s.clients h)
]

reattach-IsSaved :
    (hash_token : String → String) (token name : String) (kind : ClientKind) (s : ClientStore)
    → IsSaved s
    → IsSaved (reattach hash_token true token name kind s).0
unfolding reattach
reattach-IsSaved hash_token token name kind s h =
    elim (Option-cases (find (is_named name kind) s.clients)) [
      | inl e ↦ rw (reattach, e) h
      | inr (c, e) ↦ rw (reattach, e) (persist-IsSaved _ s.clients h)
    ]

revoke-IsSaved : (id : String) (s : ClientStore) → IsSaved s → IsSaved (revoke true id s).0
unfolding revoke
revoke-IsSaved id s h =
    elim (Bool-cases (length (keep (λ c. not (text_eq c.id id)) s.clients) == length s.clients)) [
      | inl e ↦
          rw e (h ∙ ap (λ cs. some cs) (sym (keep-all (λ c. not (text_eq c.id id)) s.clients e)))
      | inr e ↦ rw e (persist-IsSaved _ s.clients h)
    ]

Uses-IsSaved : (hash_token : String → String) (s t : ClientStore) → Uses hash_token s t → IsSaved t
unfolding open_file pair grant revoke_grant
Uses-IsSaved hash_token _ _ (opened read) = refl
Uses-IsSaved hash_token s _ (paired id token label kind _ t u) =
    persist-IsSaved _ t.clients (Uses-IsSaved hash_token s t u)
Uses-IsSaved hash_token s _ (granted id until_ms _ t u) =
    set_grant-IsSaved id (some until_ms) t (Uses-IsSaved hash_token s t u)
Uses-IsSaved hash_token s _ (grant_revoked id _ t u) =
    set_grant-IsSaved id none t (Uses-IsSaved hash_token s t u)
Uses-IsSaved hash_token s _ (reattached token name kind _ t u) =
    reattach-IsSaved hash_token token name kind t (Uses-IsSaved hash_token s t u)
Uses-IsSaved hash_token s _ (revoked id _ t u) = revoke-IsSaved id t (Uses-IsSaved hash_token s t u)

-- After any operations on an opened store, each of whose writes succeeded, opening its file again
-- gives the same store: no pairing, grant, new token or removal is lost or undone by a restart.
pub open_file-restart :
    (hash_token : String → String) (s t : ClientStore) → Uses hash_token s t → open_file t.file ≡ t
unfolding open_file
open_file-restart hash_token s t u = rw (Uses-IsSaved hash_token s t u) refl
