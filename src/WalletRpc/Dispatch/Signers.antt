-- ===== src/WalletRpc/Dispatch/Signers.antt =====
-- Which accounts the signatures of a request are made with.
use strkd.Prelude.{String, if◌then◌else◌}
use strkd.Prelude.Text.{text_eq}
use strkd.Prelude.Json.{Value}
use strkd.Prelude.Result.{Result}
use strkd.Felt.{Felt}
use strkd.WalletCore.Accounts.{AccountRef}
use strkd.WalletRpc.Auth.{PairedClient}
use strkd.WalletRpc.Dispatch.Scope.{InScope, Manager}
use strkd.WalletRpc.Handler.{Env}
use strkd.WalletRpc.Handler.Starts.{Starts}
use strkd.WalletRpc.State.{ServerState}

-- Whom the method may sign for: the caller's accounts, and for funding only the manager that the
-- request names, as the state derives it in which the request arrives.
abbrev pub Signer : Env → PairedClient → String → Value → ServerState → AccountRef → Type 0
Signer e client method params st a =
    if text_eq method "companion_requestFunding"
    then Manager e.host params st a
    else InScope client a

module _ (e : Env) (client : PairedClient) where
  abbrev Own : ServerState → AccountRef → Type 0
  Own st a = InScope client a
