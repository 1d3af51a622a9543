-- ===== src/WalletRpc/Handler/Steady.antt =====
-- Actions that leave the session alone.
use strkd.Prelude.{arith, String, ◌≡◌, refl, List}
use strkd.Prelude.Result.{Result}
use strkd.Felt.{Felt}
use strkd.WalletCore.Accounts.{AccountRef}
use strkd.WalletCore.Contract.{ChainId}
use strkd.WalletCore.Tx.{Call, InvokeV3Params}
use strkd.WalletRpc.Error.{WalletRpcError}
use strkd.WalletRpc.Handler.{Env, Event, World, Action, asks, acts, sends}
use strkd.WalletRpc.Handler.Signing.{
  signs_typed_data, signs_invoke, signs_declare, signs_deploy_account,
}
use strkd.WalletRpc.Session.{WalletSession}
use strkd.WalletRpc.State.{ServerState}

pub record Steady {A : Type 0} (m : Action A) : Type 0 where
  pub at : (w : World) → (m w).1.state.session ≡ w.state.session

module _ {A : Type 0} where
  pub Steady-asks : (f : ServerState → Result WalletRpcError A) → Steady (asks f)
  unfolding asks
  Steady-asks f = record { at = λ w. refl }

  pub Steady-sends :
      (event : Event) (f : ServerState → Result WalletRpcError A) → Steady (sends event f)
  unfolding sends
  Steady-sends event f = record { at = λ w. refl }

  Steady-acts :
      (event : WalletSession → A → Event) (f : WalletSession → Result WalletRpcError A)
      → Steady (acts event f)
  unfolding acts
  Steady-acts event f = record { at = λ w. ground arith }

module _ (e : Env) (a : AccountRef) where
  pub Steady-typed_data : (json : String) → Steady (signs_typed_data e a json)
  unfolding signs_typed_data
  Steady-typed_data json = Steady-acts _ _

  pub Steady-invoke :
      (calls : List Call) (chain : ChainId) (params : InvokeV3Params)
      → Steady (signs_invoke e a calls chain params)
  unfolding signs_invoke
  Steady-invoke calls chain params = Steady-acts _ _

  pub Steady-declare :
      (class_hash compiled : Felt) (chain : ChainId) (params : InvokeV3Params)
      → Steady (signs_declare e a class_hash compiled chain params)
  unfolding signs_declare
  Steady-declare class_hash compiled chain params = Steady-acts _ _

  pub Steady-deploy_account :
      (chain : ChainId) (params : InvokeV3Params) → Steady (signs_deploy_account e a chain params)
  unfolding signs_deploy_account
  Steady-deploy_account chain params = Steady-acts _ _
