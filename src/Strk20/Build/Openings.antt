-- ===== src/Strk20/Build/Openings.antt =====
-- The channels that the steps of the loop open (crates/strk20/src/planner.rs).
use mathlib.Core.List.{append-nil, append_assoc}
use strkd.Prelude.{
  ℕ, ◌+◌, ◌%◌, ◌≡◌, ◌≢◌, refl, sym, subst, Bool, true, false, not, Option, none, some, List, [],
  ◌∷◌, ◌++◌, arith, ◌==◌, if◌then◌else◌, All,
}
use strkd.Prelude.Map.{BTreeMap, lookup, lookup-insert, insert}
use strkd.Felt.{Felt}
use strkd.Strk20.Actions.{ClientAction, open_channel}
use strkd.Strk20.Discovery.{OutgoingChannel, u32_limit}
use strkd.Strk20.Build.{Build, opened, sub_opened, noted}
use strkd.Strk20.Build.Steps.{Steps, done, opens, opens_sub, notes}

-- The channel to `r` is known and closed.
abbrev closed_in : Option OutgoingChannel → Bool
closed_in none = false
closed_in (some channel) = not channel.is_open

abbrev pub is_closed : BTreeMap OutgoingChannel → Felt → Bool
is_closed channels r = closed_in (lookup r channels)

abbrev pub Elsewhere : Felt → ClientAction → Type 0
Elsewhere r (open_channel recipient _ _ _) = recipient ≢ r
Elsewhere r _ = Unit {0}

-- Open actions to distinct recipients that are closed in `channels`, at the indices from `next`.
abbrev pub Openings : BTreeMap OutgoingChannel → ℕ → List ClientAction → Type 0
Openings channels next [] = Unit {0}
Openings channels next (open_channel recipient index _ _ ∷ acts) =
    (is_closed channels recipient ≡ true)
    × (index ≡ next)
    × All (Elsewhere recipient) acts
    × Openings channels ((next + 1) % u32_limit) acts
Openings channels next _ = ⊥

-- What is closed later was closed before, and a recipient that is open is not opened.
Openings-mono :
    (c d : BTreeMap OutgoingChannel) (next : ℕ) (acts : List ClientAction)
    → ((r : Felt) → is_closed d r ≡ true → is_closed c r ≡ true)
    → Openings d next acts
    → Openings c next acts
Openings-mono c d next [] h o = tt
Openings-mono c d next (open_channel recipient index random salt ∷ acts) h (k, e, a, o) =
    (h recipient k, e, a, Openings-mono c d ((next + 1) % u32_limit) acts h o)
Openings-mono c d next (_ ∷ acts) h o = absurd o

Openings-Elsewhere :
    (c : BTreeMap OutgoingChannel) (next : ℕ) (r : Felt) (acts : List ClientAction)
    → is_closed c r ≡ false
    → Openings c next acts
    → All (Elsewhere r) acts
Openings-Elsewhere c next r [] h o = tt
Openings-Elsewhere c next r (open_channel recipient index random salt ∷ acts) h (k, e, a, o) = (
  λ p. cc (h, subst (λ z. is_closed c z ≡ true) p k),
  Openings-Elsewhere c ((next + 1) % u32_limit) r acts h o,
)
Openings-Elsewhere c next r (_ ∷ acts) h o = absurd o

module _ (r : Felt) (b : Build) where
  is_closed-opened :
      (recipient : Felt) (channel : OutgoingChannel) (random salt : Felt)
      → is_closed (opened b recipient channel random salt).channels r
        ≡ (if recipient == r then false else is_closed b.channels r)
  unfolding opened
  is_closed-opened recipient channel random salt =
      ground (arith, lookup-insert recipient r (record channel { is_open = true }) b.channels)

  is_closed-insert :
      (recipient : Felt) (channel : OutgoingChannel)
      → channel.is_open ≡ true
      → is_closed (insert recipient channel b.channels) r ≡ true
      → is_closed b.channels r ≡ true
  is_closed-insert recipient channel o h =
      ground (arith, lookup-insert recipient r channel b.channels)

-- The open actions that a run of steps adds.
pub Steps-Openings :
    (b' : Build) {b : Build} {ns : List (Felt × Felt × ℕ)}
    → Steps b' b ns
    → (acts : List ClientAction) × (b'.open_channels ≡ b.open_channels ++ acts)
      × Openings b.channels b.next_channel_index acts
unfolding opened sub_opened noted
Steps-Openings b' done = ([], sym (append-nil _), tt)
Steps-Openings b' {b} (opens recipient channel random salt p q s) =
    let (acts, e, o) = Steps-Openings b' s in
    let c = opened b recipient channel random salt in
    (
      open_channel recipient b.next_channel_index random salt ∷ acts,
      rw (e, append_assoc),
      (
        ground arith,
        refl,
        Openings-Elsewhere c.channels c.next_channel_index recipient acts
            (ground (arith, is_closed-opened recipient b recipient channel random salt)) o,
        Openings-mono b.channels c.channels c.next_channel_index acts
            (λ r. ground (arith, is_closed-opened r b recipient channel random salt)) o,
      ),
    )
Steps-Openings b' {b} (opens_sub recipient token channel salt p q u s) =
    let (acts, e, o) = Steps-Openings b' s in
    let c = sub_opened b recipient token channel salt in
    (
      acts,
      e,
      Openings-mono b.channels c.channels b.next_channel_index acts
          (λ r. is_closed-insert r b recipient _ q) o,
    )
Steps-Openings b' {b} (notes recipient token amount channel sub salt p q u k s) =
    let (acts, e, o) = Steps-Openings b' s in
    let c = noted b recipient token amount channel sub salt in
    (
      acts,
      e,
      Openings-mono b.channels c.channels b.next_channel_index acts
          (λ r. is_closed-insert r b recipient _ q) o,
    )
