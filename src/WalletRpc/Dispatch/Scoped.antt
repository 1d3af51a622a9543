-- ===== src/WalletRpc/Dispatch/Scoped.antt =====
-- What the preparations yield: whose accounts, and when the manager's.
use strkd.Prelude.Json.{Value}
use strkd.WalletRpc.Auth.{PairedClient}
use strkd.WalletRpc.Dispatch.Prepare.{prepare_invoke, prepare_virtual, prepare_typed_data}
use strkd.WalletRpc.Dispatch.PrepareDeclare.{SierraClass, prepare_declare}
use strkd.WalletRpc.Dispatch.PrepareFunding.{prepare_funding, prepare_deploy}
use strkd.WalletRpc.Dispatch.Scope.{yields_rules, InScope, Yields, Manager}
use strkd.WalletRpc.Session.{Host}
use strkd.WalletRpc.State.{ServerState}

module _ (h : Host) (client : PairedClient) (params : Value) (st : ServerState) where
  pub prepare_invoke-InScope :
      Yields (λ p. InScope client p.account) (prepare_invoke h client params st)
  unfolding prepare_invoke
  prepare_invoke-InScope = search yields_rules depth 14

  pub prepare_virtual-InScope :
      Yields (λ p. InScope client p.account) (prepare_virtual h client params st)
  unfolding prepare_virtual
  prepare_virtual-InScope = search yields_rules depth 14

  pub prepare_typed_data-InScope :
      Yields (λ p. InScope client p.account) (prepare_typed_data h client params st)
  unfolding prepare_typed_data
  prepare_typed_data-InScope = search yields_rules depth 14

  pub prepare_declare-InScope :
      (classes : SierraClass)
      → Yields (λ p. InScope client p.account) (prepare_declare h classes client params st)
  unfolding prepare_declare
  prepare_declare-InScope classes = search yields_rules depth 20

  pub prepare_deploy-InScope :
      Yields (λ p. InScope client p.account) (prepare_deploy h client params st)
  unfolding prepare_deploy
  prepare_deploy-InScope = search yields_rules depth 14

  pub prepare_funding-Manager :
      Yields (λ p. Manager h params st p.manager) (prepare_funding h client params st)
  unfolding prepare_funding
  prepare_funding-Manager = search yields_rules depth 20

  pub prepare_funding-InScope :
      Yields (λ p. InScope client p.recipient) (prepare_funding h client params st)
  unfolding prepare_funding
  prepare_funding-InScope = search yields_rules depth 20
