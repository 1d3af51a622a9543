-- ===== src/Strk20/Actions/Decode.antt =====
-- A reader of the pool's wire format, written from the variant table of the pool's ABI, and the
-- round trip of `serialize_actions` through it.
use mathlib.Core.List.{append_assoc, append-nil}
use strkd.Prelude.{
  ℕ, zero, suc, ◌≡◌, refl, Option, none, some, List, [], ◌∷◌, ◌++◌, length, ◌==◌, if◌then◌else◌,
}
use strkd.Felt.{Felt}
use strkd.Strk20.Actions.{
  ClientAction, set_viewing_key, open_channel, open_subchannel, create_enc_note, deposit, use_note,
  withdraw, serialize, serialize_all, serialize_actions, variant, fields,
}

abbrev Read : Type 0
Read = Option (ClientAction × List Felt)

read_fields_1 : List Felt → Read
read_fields_1 (a ∷ r) = some (set_viewing_key a, r)
read_fields_1 _ = none

read_fields_2 : List Felt → Read
read_fields_2 (a ∷ b ∷ r) = some (deposit a b, r)
read_fields_2 _ = none

read_fields_3 : List Felt → Read
read_fields_3 (a ∷ b ∷ c ∷ r) = some (use_note a b c, r)
read_fields_3 _ = none

read_fields_4 : (Felt → Felt → Felt → Felt → ClientAction) → List Felt → Read
read_fields_4 f (a ∷ b ∷ c ∷ d ∷ r) = some (f a b c d, r)
read_fields_4 f _ = none

read_fields_6 : (Felt → Felt → Felt → Felt → Felt → Felt → ClientAction) → List Felt → Read
read_fields_6 k (a ∷ b ∷ c ∷ d ∷ e ∷ f ∷ r) = some (k a b c d e f, r)
read_fields_6 k _ = none

read_action : List Felt → Read
unfolding read_fields_1 read_fields_2 read_fields_3 read_fields_4 read_fields_6
read_action [] = none
read_action (v ∷ r) =
    if v == 0
    then read_fields_1 r
    else if v == 1
    then read_fields_4 open_channel r
    else if v == 2
    then read_fields_6 open_subchannel r
    else if v == 3
    then read_fields_6 create_enc_note r
    else if v == 5
    then read_fields_2 r
    else if v == 6
    then read_fields_3 r
    else if v == 7
    then read_fields_4 withdraw r
    else none

read_actions : ℕ → List Felt → Option (List ClientAction × List Felt)
read_actions zero r = some ([], r)
read_actions (suc n) r = elim (read_action r) [
  | none ↦ none
  | some (a, r') ↦ elim (read_actions n r') [
    | none ↦ none
    | some (acts, r'') ↦ some (a ∷ acts, r'')
  ]
]

-- A `Span<ClientAction>`: the count, then that many actions.
pub read_span : List Felt → Option (List ClientAction × List Felt)
unfolding read_actions read_action
read_span [] = none
read_span (n ∷ r) = read_actions n r

body : List ClientAction → List Felt
body [] = []
body (a ∷ rest) = (variant a ∷ fields a) ++ body rest

serialize_all-body :
    (acts : List ClientAction) (out : List Felt) → serialize_all acts out ≡ out ++ body acts
unfolding serialize_all serialize body
serialize_all-body [] out = rw append-nil
serialize_all-body (a ∷ rest) out = rw (serialize_all-body rest _, append_assoc)

read_action-body :
    (a : ClientAction) (r : List Felt) → read_action ((variant a ∷ fields a) ++ r) ≡ some (a, r)
unfolding read_action
read_action-body (set_viewing_key _) r = refl
read_action-body (open_channel _ _ _ _) r = refl
read_action-body (open_subchannel _ _ _ _ _ _) r = refl
read_action-body (create_enc_note _ _ _ _ _ _) r = refl
read_action-body (deposit _ _) r = refl
read_action-body (use_note _ _ _) r = refl
read_action-body (withdraw _ _ _ _) r = refl

read_actions-body :
    (acts : List ClientAction) (r : List Felt)
    → read_actions (length acts) (body acts ++ r) ≡ some (acts, r)
unfolding read_actions body
read_actions-body [] r = refl
read_actions-body (a ∷ acts) r =
    rw (append_assoc, read_action-body a (body acts ++ r), read_actions, read_actions-body acts r)

-- The pool's reader gets back the same actions in the same order, and what follows them untouched.
pub read_span-serialize_actions :
    (acts : List ClientAction) (r : List Felt)
    → read_span (serialize_actions acts ++ r) ≡ some (acts, r)
unfolding read_span serialize_actions
read_span-serialize_actions acts r =
    rw (serialize_all-body acts (length acts ∷ [])) (read_actions-body acts r)
