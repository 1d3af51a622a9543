-- ===== src/WalletRpc/Handler/Signing.antt =====
-- Signing as actions: what `session.sign_*_for` gives in the handlers
-- (crates/wallet-rpc/src/dispatch.rs), recorded as an event.
use strkd.Prelude.{String, List}
use strkd.Prelude.Result.{Result, ok, ◌>>=◌}
use strkd.Felt.{Felt}
use strkd.WalletCore.Accounts.{AccountRef}
use strkd.WalletCore.Contract.{ChainId, StarkSignature, serialize_signature}
use strkd.WalletCore.Sign.{SignedInvoke, SignedDeployAccount, SignedDeclare}
use strkd.WalletCore.Tx.{Call, InvokeV3Params}
use strkd.WalletRpc.Error.{WalletRpcError}
use strkd.WalletRpc.Handler.{Env, Signed, typed_data, invoke, declare, deploy, signed, Action, acts}
use strkd.WalletRpc.Session.{Host, WalletSession}
use strkd.WalletRpc.Session.Signing.{
  sign_typed_data_for, sign_invoke_for, sign_declare_for, sign_deploy_account_for,
}

-- The signature that a session gives with an account's key.
abbrev pub signature_for :
    Host → AccountRef → Signed → WalletSession → Result WalletRpcError (List Felt)
signature_for h a (typed_data json) s =
    sign_typed_data_for h a json s >>= λ sig. ok (serialize_signature a.contract sig)
signature_for h a (invoke calls chain params) s =
    sign_invoke_for h a calls chain params s >>= λ tx. ok tx.signature
signature_for h a (declare class_hash compiled chain params) s =
    sign_declare_for h a class_hash compiled chain params s >>= λ tx. ok tx.signature
signature_for h a (deploy chain params) s =
    sign_deploy_account_for h a chain params s >>= λ tx. ok tx.signature

module _ (e : Env) where
  unfoldable pub signs_typed_data : AccountRef → String → Action StarkSignature
  signs_typed_data a json =
      acts (λ s sig. signed a (typed_data json) s (serialize_signature a.contract sig))
        (sign_typed_data_for e.host a json)

  unfoldable pub signs_invoke :
      AccountRef → List Call → ChainId → InvokeV3Params → Action SignedInvoke
  signs_invoke a calls chain params =
      acts (λ s tx. signed a (invoke calls chain params) s tx.signature)
        (sign_invoke_for e.host a calls chain params)

  unfoldable pub signs_declare :
      AccountRef → Felt → Felt → ChainId → InvokeV3Params → Action SignedDeclare
  signs_declare a class_hash compiled chain params =
      acts (λ s tx. signed a (declare class_hash compiled chain params) s tx.signature)
        (sign_declare_for e.host a class_hash compiled chain params)

  unfoldable pub signs_deploy_account :
      AccountRef → ChainId → InvokeV3Params → Action SignedDeployAccount
  signs_deploy_account a chain params =
      acts (λ s tx. signed a (deploy chain params) s tx.signature)
        (sign_deploy_account_for e.host a chain params)
