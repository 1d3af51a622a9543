-- ===== src/WalletRpc/Dispatch/Answers.antt =====
-- When pairing answers, and what a new or re-attached client can do.
use strkd.Prelude.{String, ◌≡◌, ◌↔◌, inl, inr, none, arith}
use strkd.WalletRpc.Approval.{approve, Decision-cases}
use strkd.WalletRpc.Auth.{ClientKind, find_id, reattach}
use strkd.WalletRpc.Dispatch.Pairing.{answered, reattach_request, finish_reattach, ask_reattach}
use strkd.WalletRpc.Handler.{Env, World}

module _ (e : Env) (name : String) (kind : ClientKind) where
  finish_reattach-none :
      (w : World)
      → ((finish_reattach e name kind w).0 ≡ none) ↔ (find_id name kind w.state.clients ≡ none)
  unfolding finish_reattach reattach find_id
  finish_reattach-none w = ground arith

  -- When the user is asked to re-attach a client: the request panics exactly if the user approves and,
  -- when the answer comes, no client of that name and kind is left.
  pub ask_reattach-none :
      (id : String) (w : World)
      → ((ask_reattach e name kind id w).0 ≡ none) ↔ (
          (e.approver (reattach_request e name kind id w.state) ≡ approve)
          × (find_id name kind (e.meanwhile w.state).clients ≡ none))
  unfolding ask_reattach
  ask_reattach-none id w =
      let req = reattach_request e name kind id w.state in
      let after = finish_reattach-none (answered e req w) in
      elim (Decision-cases (e.approver req)) [
        | inl a ↦ ground (arith, a, after)
        | inr r ↦ ground (arith, r)
      ]
