-- ===== src/Strk20/Apply.antt =====
-- From a proof's message to the call of `apply_actions` (crates/strk20/src/apply.rs).
use strkd.Prelude.{ℕ, zero, suc, ◌≡◌, refl, Option, none, some, List, [], ◌∷◌, ◌++◌}
use strkd.Prelude.Result.{Result, ok, err}
use strkd.Felt.{Felt, External}
use strkd.WalletCore.Tx.{Call, get_selector_from_name}
use strkd.Strk20.Error.{Error, empty_proof_output}

pub record ScreeningAttestation : Type 0 where
  pub issued_at : ℕ
  pub sig_r : Felt
  pub sig_s : Felt

abbrev encode_screening : Option ScreeningAttestation → List Felt
encode_screening none = 1 ∷ []
encode_screening (some a) = 0 ∷ a.issued_at ∷ a.sig_r ∷ a.sig_s ∷ []

module _ (x : External) where
  unfoldable pub apply_actions_call :
      Felt → List Felt → Option ScreeningAttestation → Result Error Call
  apply_actions_call pool [] screening = err empty_proof_output
  apply_actions_call pool (class_hash ∷ actions) screening = ok (record {
    to = pool;
    selector = get_selector_from_name x "apply_actions";
    calldata = actions ++ encode_screening screening;
  })

-- The pool's reader of the attestation, at the end of the calldata.
unfoldable pub read_screening : List Felt → Option (Option ScreeningAttestation)
read_screening (suc zero ∷ []) = some none
read_screening (zero ∷ issued_at ∷ sig_r ∷ sig_s ∷ []) =
    some (some (record { issued_at = issued_at; sig_r = sig_r; sig_s = sig_s }))
read_screening _ = none

-- The pool's reader of the calldata: the server's actions by `read`, then the attestation.
abbrev pub after_actions {ℓ} :
    {A : Type ℓ} → Option (A × List Felt) → Option (A × Option ScreeningAttestation)
after_actions none = none
after_actions (some (acts, rest)) = elim (read_screening rest) [
  | none ↦ none
  | some screening ↦ some (acts, screening)
]

-- `apply_actions_call` refuses the empty payload. From the call that it makes of any other payload
-- the pool reads the attestation that was passed, and before it `acts`, if that is what its reader of
-- the server's actions reads from the payload without its class hash, whatever follows.
pub apply_actions_call-decodes {ℓ} :
    (x : External) {A : Type ℓ} (read : List Felt → Option (A × List Felt)) (pool : Felt)
    (screening : Option ScreeningAttestation) (class_hash : Felt) (actions : List Felt) (acts : A)
    → ((r : List Felt) → read (actions ++ r) ≡ some (acts, r))
    → (apply_actions_call x pool [] screening ≡ err empty_proof_output)
      × (call : Call) × (apply_actions_call x pool (class_hash ∷ actions) screening ≡ ok call)
      × (call.to ≡ pool)
      × (call.selector ≡ get_selector_from_name x "apply_actions")
      × (after_actions (read call.calldata) ≡ some (acts, screening))
unfolding apply_actions_call read_screening
apply_actions_call-decodes x read pool none class_hash actions acts h =
    (refl, _, refl, refl, refl, rw (h (1 ∷ [])) refl)
apply_actions_call-decodes x read pool (some a) class_hash actions acts h =
    (refl, _, refl, refl, refl, rw (h (0 ∷ a.issued_at ∷ a.sig_r ∷ a.sig_s ∷ [])) refl)
