-- ===== src/Strk20/Intent.antt =====
-- What a batch is asked to do, and the state that it builds on (crates/strk20/src/planner.rs).
use strkd.Prelude.{ℕ, Bool, List}
use strkd.Prelude.Map.{BTreeMap}
use strkd.Prelude.Result.{Result}
use strkd.Felt.{Felt}
use strkd.Strk20.Error.{Error}
use strkd.Strk20.Actions.{ClientAction}
use strkd.Strk20.Discovery.{Note, OutgoingChannel}

pub record Intent : Type 0 where
  pub register : Bool
  -- (token, amount)
  pub deposits : List (Felt × ℕ)
  -- (recipient, token, amount)
  pub transfers : List (Felt × Felt × ℕ)
  -- (to, token, amount)
  pub withdrawals : List (Felt × Felt × ℕ)

pub record State : Type 0 where
  pub user : Felt
  pub user_sk : Felt
  pub registered : Bool
  pub outgoing_channels : ℕ
  pub channels : BTreeMap OutgoingChannel
  pub notes : List Note

pub data Warning : Type 0 where
  user_linkage : Warning

pub record Plan : Type 0 where
  pub actions : List ClientAction
  pub spent : List Felt
  pub change : BTreeMap ℕ
  pub warnings : List Warning

-- The trait `Randomness`, over the states `R` of a generator. After an error the generator is
-- dropped with the plan, so its state is not kept.
pub record Randomness (R : Type 0) : Type 0 where
  pub felt : R → Result Error (Felt × R)
  pub salt120 : R → Result Error (ℕ × R)
