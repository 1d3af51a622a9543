-- ===== src/WalletRpc/Approval.antt =====
-- The approval broker (crates/wallet-rpc/src/approval.rs).
use strkd.Prelude.{◌≡◌, ◌⊎◌, refl, inl, inr, String, Bool, true, false, Option, none, some}

pub record ApprovalRequest : Type 0 where
  pub client_label : String
  pub method : String
  pub summary : String

pub data Decision : Type 0 where
  approve : Decision
  reject : Decision

pub Decision-cases : (d : Decision) → (d ≡ approve) ⊎ (d ≡ reject)
Decision-cases approve = inl refl
Decision-cases reject = inr refl

-- `Approver::request_approval`
abbrev pub Approver : Type 0
Approver = ApprovalRequest → Decision

-- `AutoApprover`
unfoldable pub auto_approver : Decision → Approver
auto_approver decision req = decision

-- `ChannelApprover`: whether the receiver takes the prompt, and what comes back on the channel of
-- the answer; `none` if its sender is dropped.
unfoldable pub channel_approver :
    (ApprovalRequest → Bool) → (ApprovalRequest → Option Decision) → Approver
channel_approver taken answer req = elim (taken req) [
  | false ↦ reject
  | true ↦ elim (answer req) [ none ↦ reject | some decision ↦ decision ]
]
