-- ===== src/Strk20/Error.antt =====
-- The error type of the strk20 crate (crates/strk20/src/lib.rs), and the ways in which a function
-- of the crate ends without a value.
use strkd.Prelude.{ℕ, String}
use strkd.Felt.{Felt}

pub data Error : Type 0 where
  not_on_curve : Felt → Error
  empty_proof_output : Error
  not_registered : Felt → Error
  -- token, shortfall, available
  insufficient_balance : Felt → ℕ → ℕ → Error
  zero_amount : Error
  read : String → Error
  random : String → Error

-- `panic` is a failed `expect`; `out_of_fuel` is a loop that runs on.
pub data Failure : Type 0 where
  error : Error → Failure
  panic : Failure
  out_of_fuel : Failure
