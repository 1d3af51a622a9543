-- ===== src/Prelude/Text.antt =====
-- Texts, compared as Rust compares `str`.
use mathlib.Core.Path.{◌≡◌, refl, subst}
use mathlib.Core.Logic.{◌≢◌}
use mathlib.Core.Bool.{Bool, true, false}
use Prim.Native.String.{String, ◌++◌}
use text.Mathlib.Text.{◌==◌}
use text.Mathlib.TextEquality.{eq_iff}

abbrev pub text_eq : String → String → Bool
text_eq s t = s == t

pub text_eq-true : (s t : String) → text_eq s t ≡ true → s ≡ t
text_eq-true s t = (eq_iff s t).0

pub text_eq_refl : (s : String) → text_eq s s ≡ true
text_eq_refl s = (eq_iff s s).1 refl

pub text_eq-false : (s t : String) → s ≢ t → text_eq s t ≡ false
text_eq-false s t h = go (text_eq s t) refl
  where
    go : (b : Bool) → text_eq s t ≡ b → text_eq s t ≡ false
    go true e = absurd (h (text_eq-true s t e))
    go false e = e

pub text_eq_comm : (s t : String) → text_eq s t ≡ text_eq t s
text_eq_comm s t = go (text_eq s t) (text_eq t s) refl refl
  where
    go : (a b : Bool) → text_eq s t ≡ a → text_eq t s ≡ b → text_eq s t ≡ text_eq t s
    go true b e f = subst (λ u. text_eq s u ≡ text_eq u s) (text_eq-true s t e) refl
    go false true e f = subst (λ u. text_eq u t ≡ text_eq t u) (text_eq-true t s f) refl
    go false false e f = rw (e, f) refl

-- `format!` and `push_str`
infixr 65 ◌<>◌
abbrev pub ◌<>◌ : String → String → String
s <> t = s ++ t
