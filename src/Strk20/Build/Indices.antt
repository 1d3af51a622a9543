-- ===== src/Strk20/Build/Indices.antt =====
-- What the steps leave behind: which actions they emit, the amounts of the notes, and the indices
-- that channels, subchannels and notes take.
use strkd.Prelude.{
  ℕ, zero, suc, ◌+◌, ◌%◌, ◌<◌, ◌≡◌, refl, sym, true, ◌&&◌, Option, none, some, List, [], ◌∷◌, ◌++◌,
  arith, ◌==◌, if◌then◌else◌, sum_by, sum_by-append, All, All-append,
}
use mathlib.Core.List.{append-nil, append_assoc}
use strkd.Prelude.Map.{BTreeMap, lookup, lookup-insert, insert}
use strkd.Felt.{Felt}
use strkd.Strk20.Crypto.{open_note_salt}
use strkd.Strk20.Actions.{ClientAction, create_enc_note, rank, phase}
use strkd.Strk20.Discovery.{Subchannel, OutgoingChannel, u32_limit}
use strkd.Strk20.Balance.Totals.{outgoing}
use strkd.Strk20.Build.{Build, fresh_subchannel, opened, sub_opened, noted}
use strkd.Strk20.Build.Steps.{Steps, done, opens, opens_sub, notes}

-- The amount of `token` that an action puts into a note.
abbrev pub created : Felt → ClientAction → ℕ
created t (create_enc_note _ _ token amount _ _) = if token == t then amount else 0
created t _ = 0

-- The notes created hold, per token, what the new notes ask for.
pub Steps-created :
    (t : Felt) (b' : Build) {b : Build} {ns : List (Felt × Felt × ℕ)}
    → Steps b' b ns
    → sum_by (created t) b'.create_notes ≡ sum_by (created t) b.create_notes + outgoing t ns
unfolding opened sub_opened noted
Steps-created t b' done = omega arith
Steps-created t b' (opens recipient channel random salt p q s) = Steps-created t b' s
Steps-created t b' (opens_sub recipient token channel salt p q u s) = Steps-created t b' s
Steps-created t b' {b} (notes recipient token amount channel sub salt p q u k s) =
    let a =
      create_enc_note recipient channel.recipient_public_key token amount sub.next_note_index
        salt in
    ground (arith, Steps-created t b' s, sum_by-append (created t) b.create_notes (a ∷ []))

-- What each list of actions holds; a new note's salt never marks an open note.
abbrev pub InPhase : ℕ → ClientAction → Type 0
InPhase k a = rank (phase a) ≡ k

abbrev pub IsSalted : ClientAction → Type 0
IsSalted (create_enc_note _ _ _ _ _ salt) = open_note_salt < salt
IsSalted a = Unit {0}

pub record IsShaped (b : Build) : Type 0 where
  pub channel_phase : All (InPhase 1) b.open_channels
  pub subchannel_phase : All (InPhase 2) b.open_subchannels
  pub note_phase : All (InPhase 5) b.create_notes
  pub salted : All IsSalted b.create_notes

pub Steps-IsShaped :
    (b' : Build) {b : Build} {ns : List (Felt × Felt × ℕ)}
    → Steps b' b ns
    → IsShaped b
    → IsShaped b'
unfolding opened sub_opened noted
Steps-IsShaped b' done h = h
Steps-IsShaped b' {b} (opens recipient channel random salt p q s) h = Steps-IsShaped b' s (record {
  channel_phase = All-append (InPhase 1) b.open_channels _ h.channel_phase (refl, tt);
  subchannel_phase = h.subchannel_phase;
  note_phase = h.note_phase;
  salted = h.salted;
})
Steps-IsShaped b' {b} (opens_sub recipient token channel salt p q u s) h =
    Steps-IsShaped b' s (record {
      channel_phase = h.channel_phase;
      subchannel_phase = All-append (InPhase 2) b.open_subchannels _ h.subchannel_phase (refl, tt);
      note_phase = h.note_phase;
      salted = h.salted;
    })
Steps-IsShaped b' {b} (notes recipient token amount channel sub salt p q u k s) h =
    Steps-IsShaped b' s (record {
      channel_phase = h.channel_phase;
      subchannel_phase = h.subchannel_phase;
      note_phase = All-append (InPhase 5) b.create_notes _ h.note_phase (refl, tt);
      salted = All-append IsSalted b.create_notes _ h.salted (k, tt);
    })

-- `n` successive `u32` indices from `start`.
abbrev pub count_up : ℕ → ℕ → List ℕ
count_up zero start = []
count_up (suc n) start = start ∷ count_up n ((start + 1) % u32_limit)

-- The indices of the notes that a list of actions creates for one recipient and token.
abbrev pub note_indices : Felt → Felt → List ClientAction → List ℕ
note_indices r t [] = []
note_indices r t (create_enc_note recipient _ token _ index _ ∷ acts) =
    let rest = note_indices r t acts in if recipient == r && token == t then index ∷ rest else rest
note_indices r t (_ ∷ acts) = note_indices r t acts

-- How many of the new notes go to one recipient in one token.
abbrev pub note_count : Felt → Felt → List (Felt × Felt × ℕ) → ℕ
note_count r t [] = 0
note_count r t ((recipient, token, _) ∷ ns) =
    let rest = note_count r t ns in if recipient == r && token == t then suc rest else rest

abbrev next_of : Option Subchannel → ℕ
next_of none = 0
next_of (some sub) = sub.next_note_index

abbrev next_in : Felt → Option OutgoingChannel → ℕ
next_in t none = 0
next_in t (some channel) = next_of (lookup t channel.subchannels)

-- The index that the next note to a recipient in a token takes.
abbrev pub next_index : Felt → Felt → BTreeMap OutgoingChannel → ℕ
next_index r t channels = next_in t (lookup r channels)

pub note_indices-append :
    (r t : Felt) (xs ys : List ClientAction)
    → note_indices r t (xs ++ ys) ≡ note_indices r t xs ++ note_indices r t ys
note_indices-append r t [] ys = refl
note_indices-append r t (create_enc_note recipient _ token _ index _ ∷ xs) ys =
    ground (arith, note_indices-append r t xs ys)
note_indices-append r t (_ ∷ xs) ys = note_indices-append r t xs ys

-- Opening a channel or a subchannel moves no note index.
next_index-opened :
    (r t : Felt) (b : Build) (recipient : Felt) (channel : OutgoingChannel) (random salt : Felt)
    → lookup recipient b.channels ≡ some channel
    → next_index r t (opened b recipient channel random salt).channels ≡ next_index r t b.channels
unfolding opened
next_index-opened r t b recipient channel random salt p =
    ground (arith, lookup-insert recipient r (record channel { is_open = true }) b.channels)

next_index-sub_opened :
    (r t : Felt) (b : Build) (recipient token : Felt) (channel : OutgoingChannel) (salt : Felt)
    → lookup recipient b.channels ≡ some channel
    → lookup token channel.subchannels ≡ none
    → next_index r t (sub_opened b recipient token channel salt).channels
      ≡ next_index r t b.channels
unfolding sub_opened
next_index-sub_opened r t b recipient token channel salt p q =
    let sub = fresh_subchannel channel in
    let subs = insert token sub channel.subchannels in
    ground (
      arith,
      lookup-insert recipient r (record channel { subchannels = subs }) b.channels,
      lookup-insert token t sub channel.subchannels,
    )

next_index-noted :
    (r t : Felt) (b : Build) (recipient token : Felt) (amount : ℕ) (channel : OutgoingChannel)
    (sub : Subchannel) (salt : ℕ)
    → lookup recipient b.channels ≡ some channel
    → lookup token channel.subchannels ≡ some sub
    → next_index r t (noted b recipient token amount channel sub salt).channels ≡ (
        if recipient == r && token == t
        then (sub.next_note_index + 1) % u32_limit
        else next_index r t b.channels)
unfolding noted
next_index-noted r t b recipient token amount channel sub salt p q =
    let sub' : Subchannel = record sub {
      next_note_index = (sub.next_note_index + 1) % u32_limit;
    } in
    let subs = insert token sub' channel.subchannels in
    ground (
      arith,
      lookup-insert recipient r (record channel { subchannels = subs }) b.channels,
      lookup-insert token t sub' channel.subchannels,
    )

-- The notes to one recipient in one token take successive indices, from the subchannel's next one.
pub Steps-note_indices :
    (r t : Felt) (b' : Build) {b : Build} {ns : List (Felt × Felt × ℕ)}
    → Steps b' b ns
    → note_indices r t b'.create_notes
      ≡ note_indices r t b.create_notes ++ count_up (note_count r t ns) (next_index r t b.channels)
unfolding opened sub_opened noted
Steps-note_indices r t b' done = sym (append-nil _)
Steps-note_indices r t b' {b} (opens recipient channel random salt p q s) =
    ground
      (arith, Steps-note_indices r t b' s, next_index-opened r t b recipient channel random salt p)
Steps-note_indices r t b' {b} (opens_sub recipient token channel salt p q u s) = ground (
  arith,
  Steps-note_indices r t b' s,
  next_index-sub_opened r t b recipient token channel salt p u,
)
Steps-note_indices r t b' {b} (notes {ns = ms} recipient token amount channel sub salt p q u k s) =
    let a =
      create_enc_note recipient channel.recipient_public_key token amount sub.next_note_index
        salt in
    ground (
      arith,
      Steps-note_indices r t b' s,
      next_index-noted r t b recipient token amount channel sub salt p u,
      note_indices-append r t b.create_notes (a ∷ []),
      append_assoc (note_indices r t b.create_notes) (sub.next_note_index ∷ [])
          (count_up (note_count r t ms) ((sub.next_note_index + 1) % u32_limit)),
      append-nil (note_indices r t b.create_notes),
    )
