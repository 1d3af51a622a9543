-- ===== src/WalletRpc/Auth.antt =====
-- The pairing store (crates/wallet-rpc/src/auth.rs). The hash of a token is a parameter; the tokens
-- that `random_hex` draws are arguments of the operations. A file is the clients that `serde_json`
-- reads back from it.
pub mod Lookup
pub mod Tokens
pub mod Restart
use strkd.Prelude.{
  ℕ, String, Bool, true, false, not, ◌&&◌, Option, none, some, List, [], ◌∷◌, ◌++◌, map, ltb,
  length, ◌==◌, if◌then◌else◌, keep, find,
}
use strkd.Prelude.Text.{text_eq}

pub data ClientKind : Type 0 where
  agent : ClientKind
  app : ClientKind

abbrev pub kind_eq : ClientKind → ClientKind → Bool
kind_eq agent agent = true
kind_eq app app = true
kind_eq _ _ = false

pub record PairedClient : Type 0 where
  pub id : String
  pub label : String
  pub kind : ClientKind
  pub granted_until : Option ℕ
  pub token_hash : String

-- `grant_active`
unfoldable pub grant_active : PairedClient → ℕ → Bool
grant_active c now = elim c.granted_until [ none ↦ false | some t ↦ ltb now t ]

pub record ClientInfo : Type 0 where
  pub id : String
  pub label : String
  pub kind : ClientKind
  pub granted_until : Option ℕ

-- The clients in memory, and what the backing file holds; no file for a store in memory.
pub record ClientStore : Type 0 where
  pub clients : List PairedClient
  pub file : Option (List PairedClient)

unfoldable pub new : ClientStore
new = record { clients = []; file = none }

-- What `open` makes of a file, which may be absent or unreadable.
abbrev pub or_empty : Option (List PairedClient) → List PairedClient
or_empty none = []
or_empty (some cs) = cs

unfoldable pub open_file : Option (List PairedClient) → ClientStore
open_file read = record { clients = or_empty read; file = some (or_empty read) }

-- `persist`: the temporary file is written and renamed; `written` says whether both succeed.
-- Their errors are swallowed.
unfoldable pub persist : Bool → ClientStore → ClientStore
persist written s = elim s.file [
  | none ↦ s
  | some old ↦ record s { file = some (if written then s.clients else old) }
]

-- `iter_mut().find(p)`, and `f` on what it finds.
unfoldable pub update_first :
    (PairedClient → Bool) → (PairedClient → PairedClient) → List PairedClient → List PairedClient
update_first p f [] = []
update_first p f (c ∷ cs) = let rest = update_first p f cs in if p c then f c ∷ cs else c ∷ rest

abbrev pub has_id : String → PairedClient → Bool
has_id id c = text_eq c.id id

abbrev pub is_named : String → ClientKind → PairedClient → Bool
is_named name kind c = text_eq c.label name && kind_eq c.kind kind

abbrev pub with_grant : Option ℕ → PairedClient → PairedClient
with_grant g c = record c { granted_until = g }

abbrev pub with_hash : String → PairedClient → PairedClient
with_hash h c = record c { token_hash = h }

-- `c.granted_until = g` on the client with the id: the body that `grant` and `revoke_grant` share.
unfoldable pub set_grant : Bool → String → Option ℕ → ClientStore → ClientStore × Bool
set_grant written id g s = elim (find (has_id id) s.clients) [
  | none ↦ (s, false)
  | some _ ↦ (
    persist written (record s { clients = update_first (has_id id) (with_grant g) s.clients }),
    true,
  )
]

unfoldable pub grant : Bool → String → ℕ → ClientStore → ClientStore × Bool
grant written id until_ms = set_grant written id (some until_ms)

unfoldable pub revoke_grant : Bool → String → ClientStore → ClientStore × Bool
revoke_grant written id = set_grant written id none

unfoldable pub find_id : String → ClientKind → ClientStore → Option String
find_id name kind s = elim (find (is_named name kind) s.clients) [
  | none ↦ none
  | some c ↦ some c.id
]

abbrev info : PairedClient → ClientInfo
info c = record { id = c.id; label = c.label; kind = c.kind; granted_until = c.granted_until }

unfoldable pub list : ClientStore → List ClientInfo
list s = map info s.clients

-- The client is removed wherever it stands; the file is written if there was one.
unfoldable pub revoke : Bool → String → ClientStore → ClientStore × Bool
revoke written id s =
    let kept = keep (λ c. not (text_eq c.id id)) s.clients in
    let after : ClientStore = record s { clients = kept } in
    if length kept == length s.clients then (after, false) else (persist written after, true)

module _ (hash_token : String → String) where
  -- `id` is "client-" and 8 random bytes, `token` 32 random bytes, in hex.
  unfoldable pub pair : Bool → String → String → String → ClientKind → ClientStore → ClientStore
  pair written id token label kind s = persist written (record s {
    clients =
        s.clients
        ++ (record {
          id = id;
          label = label;
          kind = kind;
          granted_until = none;
          token_hash = hash_token token;
        }
            ∷ []);
  })

  -- The id of the client, which has the new token from here on.
  unfoldable pub reattach :
      Bool → String → String → ClientKind → ClientStore → ClientStore × Option String
  reattach written token name kind s = elim (find (is_named name kind) s.clients) [
    | none ↦ (s, none)
    | some c ↦ (
      persist written (record s {
        clients = update_first (is_named name kind) (with_hash (hash_token token)) s.clients;
      }),
      some c.id,
    )
  ]

  unfoldable pub verify : String → ClientStore → Option PairedClient
  verify token s = find (λ c. text_eq c.token_hash (hash_token token)) s.clients
