-- ===== src/Strk20/Build/Steps.antt =====
-- What the loop over the new notes may do to its variables, as a relation: it opens a channel that
-- is closed, opens a subchannel that is missing, or creates the next note on an open one.
use strkd.Prelude.{
  subst, ℕ, ◌<◌, ◌≡◌, ◌⊎◌, inl, inr, refl, true, false, none, some, List, [], ◌∷◌, arith,
  Option-cases, Bool-cases, ltb→lt, ==_refl, zero, suc,
}
use strkd.Prelude.Map.{lookup, lookup-insert, insert}
use strkd.Prelude.Result.{ok}
use strkd.Felt.{Felt}
use strkd.Strk20.Crypto.{open_note_salt}
use strkd.Strk20.Discovery.{Subchannel, OutgoingChannel}
use strkd.Strk20.Intent.{Randomness}
use strkd.Strk20.Random.{draw, note_salt, >>=-eq-ok}
use strkd.Strk20.Build.{
  fresh_subchannel, Build, opened, sub_opened, noted, open_fresh, open_fresh_sub, note_fresh,
  on_channel, ensure_channel, ensure_subchannel, create_note, place_note, place_notes,
}

pub data Steps (b' : Build) : Build → List (Felt × Felt × ℕ) → Type 0 where
  done : Steps b' b' []
  opens :
      {b : Build} {ns : List (Felt × Felt × ℕ)} (recipient : Felt) (channel : OutgoingChannel)
      (random salt : Felt)
      → lookup recipient b.channels ≡ some channel
      → channel.is_open ≡ false
      → Steps b' (opened b recipient channel random salt) ns
      → Steps b' b ns
  opens_sub :
      {b : Build} {ns : List (Felt × Felt × ℕ)} (recipient token : Felt) (channel : OutgoingChannel)
      (salt : Felt)
      → lookup recipient b.channels ≡ some channel
      → channel.is_open ≡ true
      → lookup token channel.subchannels ≡ none
      → Steps b' (sub_opened b recipient token channel salt) ns
      → Steps b' b ns
  notes :
      {b : Build} {ns : List (Felt × Felt × ℕ)} (recipient token : Felt) (amount : ℕ)
      (channel : OutgoingChannel) (sub : Subchannel) (salt : ℕ)
      → lookup recipient b.channels ≡ some channel
      → channel.is_open ≡ true
      → lookup token channel.subchannels ≡ some sub
      → open_note_salt < salt
      → Steps b' (noted b recipient token amount channel sub salt) ns
      → Steps b' b ((recipient, token, amount) ∷ ns)

-- Steps without a note, and then more steps.
pub Steps-trans :
    (b₁ b' : Build) {b : Build} (ns : List (Felt × Felt × ℕ)) {ms : List (Felt × Felt × ℕ)}
    → Steps b₁ b ms
    → ms ≡ []
    → Steps b' b₁ ns
    → Steps b' b ns
Steps-trans b₁ b' ns done e s = s
Steps-trans b₁ b' ns (opens recipient channel random salt p q t) e s =
    opens recipient channel random salt p q (Steps-trans b₁ b' ns t e s)
Steps-trans b₁ b' ns (opens_sub recipient token channel salt p q u t) e s =
    opens_sub recipient token channel salt p q u (Steps-trans b₁ b' ns t e s)
Steps-trans b₁ b' ns (notes recipient token amount channel sub salt p q u k t) e s = absurd (cc)

module _ {R : Type 0} (rng : Randomness R) where
  note_salt-lt :
      (fuel : ℕ) (r r' : R) (salt : ℕ)
      → note_salt rng fuel r ≡ ok (salt, r')
      → open_note_salt < salt
  unfolding note_salt
  note_salt-lt zero r r' salt e = absurd (ground arith)
  note_salt-lt (suc fuel) r r' salt e =
      let (s, r₁, e₁, e₂) = >>=-eq-ok (draw rng.salt120) _ r e in
      ground (arith, ltb→lt open_note_salt s, note_salt-lt fuel r₁ r' salt)

  open_fresh-opened :
      (b b₁ : Build) (recipient : Felt) (channel : OutgoingChannel) (r r₁ : R)
      → open_fresh rng b recipient channel r ≡ ok (b₁, r₁)
      → (random : Felt) × (salt : Felt) × (b₁ ≡ opened b recipient channel random salt)
  unfolding open_fresh
  open_fresh-opened b b₁ recipient channel r r₁ e =
      let (random, r', e', f) = >>=-eq-ok (draw rng.felt) _ r e in
      let (salt, r'', e'', g) = >>=-eq-ok (draw rng.felt) _ r' f in (random, salt, ground arith)

  abbrev pub EnsureStep : Build → Felt → Build → Type 0
  EnsureStep b recipient b₁ =
      (channel : OutgoingChannel) × (lookup recipient b.channels ≡ some channel)
      × (((channel.is_open ≡ true) × (b₁ ≡ b))
          ⊎ ((random : Felt) × (salt : Felt) × (channel.is_open ≡ false)
              × (b₁ ≡ opened b recipient channel random salt)))

  pub ensure_channel-EnsureStep :
      (b b₁ : Build) (recipient : Felt) (r r₁ : R)
      → ensure_channel rng b recipient r ≡ ok (b₁, r₁)
      → EnsureStep b recipient b₁
  unfolding ensure_channel
  ensure_channel-EnsureStep b b₁ recipient r r₁ e =
      elim (Option-cases (lookup recipient b.channels)) [
        | inl missing ↦ absurd (ground arith)
        | inr (channel, found) ↦ elim (Bool-cases channel.is_open) [
          | inl is_open ↦ (channel, found, inl (is_open, ground arith))
          | inr closed ↦
              let f : open_fresh rng b recipient channel r ≡ ok (b₁, r₁) = ground arith in
              let (random, salt, p) = open_fresh-opened b b₁ recipient channel r r₁ f in
              (channel, found, inr (random, salt, closed, p))
        ]
      ]

  -- An open channel of the recipient.
  abbrev pub HasOpen : Build → Felt → Type 0
  HasOpen b recipient =
      (channel : OutgoingChannel) × (lookup recipient b.channels ≡ some channel)
      × (channel.is_open ≡ true)

  pub EnsureStep-HasOpen :
      (b b₁ : Build) (recipient : Felt) → EnsureStep b recipient b₁ → HasOpen b₁ recipient
  unfolding opened
  EnsureStep-HasOpen b b₁ recipient (channel, found, inl (is_open, p)) =
      (channel, rw p found, is_open)
  EnsureStep-HasOpen b b₁ recipient (channel, found, inr (random, salt, closed, p)) =
      let channel₁ : OutgoingChannel = record channel { is_open = true } in
      (channel₁, rw (p, lookup-insert recipient recipient channel₁ b.channels, ==_refl), refl)

  EnsureStep-Steps :
      (b' b b₁ : Build) (ns : List (Felt × Felt × ℕ)) (recipient : Felt)
      → EnsureStep b recipient b₁
      → Steps b' b₁ ns
      → Steps b' b ns
  EnsureStep-Steps b' b b₁ ns recipient (channel, found, inl (is_open, p)) s =
      subst (λ z. Steps b' z ns) p s
  EnsureStep-Steps b' b b₁ ns recipient (channel, found, inr (random, salt, closed, p)) s =
      opens recipient channel random salt found closed (subst (λ z. Steps b' z ns) p s)

  pub open_fresh_sub-sub_opened :
      (b b₁ : Build) (recipient token : Felt) (channel : OutgoingChannel) (r r₁ : R)
      → open_fresh_sub rng b recipient token channel r ≡ ok (b₁, r₁)
      → (salt : Felt) × (b₁ ≡ sub_opened b recipient token channel salt)
  unfolding open_fresh_sub
  open_fresh_sub-sub_opened b b₁ recipient token channel r r₁ e =
      let (salt, r', e', f) = >>=-eq-ok (draw rng.felt) _ r e in (salt, ground arith)

  -- `on_channel` adds at most the missing subchannel.
  on_channel-Steps :
      (b b₁ : Build) (recipient token : Felt) (r r₁ : R)
      → HasOpen b recipient
      → on_channel rng b recipient token r ≡ ok (b₁, r₁)
      → HasOpen b₁ recipient
        × ((b' : Build) (ns : List (Felt × Felt × ℕ)) → Steps b' b₁ ns → Steps b' b ns)
  unfolding on_channel ensure_subchannel sub_opened
  on_channel-Steps b b₁ recipient token r r₁ (channel, found, is_open) e =
      elim (Option-cases (lookup token channel.subchannels)) [
        | inl missing ↦
            let f : open_fresh_sub rng b recipient token channel r ≡ ok (b₁, r₁) = ground arith in
            let (salt, p) = open_fresh_sub-sub_opened b b₁ recipient token channel r r₁ f in
            let channel₁ : OutgoingChannel = record channel {
              subchannels = insert token (fresh_subchannel channel) channel.subchannels;
            } in
            (
              (
                channel₁,
                rw (p, lookup-insert recipient recipient channel₁ b.channels, ==_refl),
                is_open,
              ),
              λ b' ns s.
                  opens_sub recipient token channel salt found is_open missing
                    (subst (λ z. Steps b' z ns) p s),
            )
        | inr (sub, present) ↦
            let p : b₁ ≡ b = ground arith in
            ((channel, rw p found, is_open), λ b' ns s. subst (λ z. Steps b' z ns) p s)
      ]

  note_fresh-noted :
      (fuel : ℕ) (b b₁ : Build) (recipient token : Felt) (amount : ℕ) (channel : OutgoingChannel)
      (sub : Subchannel) (r r₁ : R)
      → note_fresh rng fuel b recipient token amount channel sub r ≡ ok (b₁, r₁)
      → (salt : ℕ) × (open_note_salt < salt)
        × (b₁ ≡ noted b recipient token amount channel sub salt)
  unfolding note_fresh
  note_fresh-noted fuel b b₁ recipient token amount channel sub r r₁ e =
      let (salt, r', e', f) = >>=-eq-ok (note_salt rng fuel) _ r e in
      (salt, note_salt-lt fuel r r' salt e', ground arith)

  create_note-Steps :
      (fuel : ℕ) (b b₁ : Build) (recipient token : Felt) (amount : ℕ) (r r₁ : R)
      → HasOpen b recipient
      → create_note rng fuel b recipient token amount r ≡ ok (b₁, r₁)
      → (b' : Build) (ns : List (Felt × Felt × ℕ)) → Steps b' b₁ ns
      → Steps b' b ((recipient, token, amount) ∷ ns)
  unfolding create_note
  create_note-Steps fuel b b₁ recipient token amount r r₁ (channel, found, is_open) e b' ns s =
      elim (Option-cases (lookup token channel.subchannels)) [
        | inl missing ↦ absurd (ground arith)
        | inr (sub, present) ↦
            let f : note_fresh rng fuel b recipient token amount channel sub r ≡ ok (b₁, r₁) =
              ground arith in
            let (salt, above, p) =
              note_fresh-noted fuel b b₁ recipient token amount channel sub r r₁ f in
            notes recipient token amount channel sub salt found is_open present above
              (subst (λ z. Steps b' z ns) p s)
      ]

  place_note-Steps :
      (fuel : ℕ) (b b₁ : Build) (n : Felt × Felt × ℕ) (r r₁ : R)
      → place_note rng fuel b n r ≡ ok (b₁, r₁)
      → (b' : Build) (ns : List (Felt × Felt × ℕ)) → Steps b' b₁ ns
      → Steps b' b (n ∷ ns)
  unfolding place_note
  place_note-Steps fuel b b₁ (recipient, token, amount) r r₁ e b' ns s =
      let (c, r₂, e₁, e₂) = >>=-eq-ok (ensure_channel rng b recipient) _ r e in
      let (d, r₃, e₃, e₄) = >>=-eq-ok (on_channel rng c recipient token) _ r₂ e₂ in
      let step = ensure_channel-EnsureStep b c recipient r r₂ e₁ in
      let (has_open, extend) =
        on_channel-Steps c d recipient token r₂ r₃ (EnsureStep-HasOpen b c recipient step) e₃ in
      EnsureStep-Steps b' b c ((recipient, token, amount) ∷ ns) recipient step (
        extend b' ((recipient, token, amount) ∷ ns)
          (create_note-Steps fuel d b₁ recipient token amount r₃ r₁ has_open e₄ b' ns s))

  -- A run of the loop is a sequence of steps that creates the notes in the given order.
  pub place_notes-Steps :
      (fuel : ℕ) (b b' : Build) (ns : List (Felt × Felt × ℕ)) (r r' : R)
      → place_notes rng fuel b ns r ≡ ok (b', r')
      → Steps b' b ns
  unfolding place_notes
  place_notes-Steps fuel b b' [] r r' e =
      let p : b' ≡ b = ground arith in subst (λ z. Steps b' z []) p done
  place_notes-Steps fuel b b' (n ∷ ns) r r' e =
      let (b₁, r₁, e₁, e₂) = >>=-eq-ok (place_note rng fuel b n) _ r e in
      place_note-Steps fuel b b₁ n r r₁ e₁ b' ns (place_notes-Steps fuel b₁ b' ns r₁ r' e₂)

  pub ensure_channel-Steps :
      (b b' : Build) (recipient : Felt) (r r' : R)
      → ensure_channel rng b recipient r ≡ ok (b', r')
      → Steps b' b []
  ensure_channel-Steps b b' recipient r r' e =
      EnsureStep-Steps b' b b' [] recipient (ensure_channel-EnsureStep b b' recipient r r' e) done
