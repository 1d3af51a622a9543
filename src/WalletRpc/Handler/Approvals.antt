-- ===== src/WalletRpc/Handler/Approvals.antt =====
-- What counts as an approval of a request, and what may only be done after one.
use strkd.Prelude.{
  String, ◌≡◌, ◌⊎◌, Bool, true, false, not, ◌&&◌, ◌||◌, Option, none, some, List, [], ◌∷◌,
}
use strkd.Prelude.Text.{text_eq}
use strkd.Prelude.Json.{Value}
use strkd.WalletCore.Vault.{EncryptedVault}
use strkd.WalletRpc.Approval.{Decision, approve, reject}
use strkd.WalletRpc.Auth.{PairedClient, ClientStore, grant_active}
use strkd.WalletRpc.Handler.{Env, Event, prompted, auto_approved, signed, broadcast, World}
use strkd.WalletRpc.Session.{WalletSession}
use strkd.WalletRpc.State.{ServerState}

-- The methods whose prompt a grant can stand in for; funding, pairing and changes of the wallet
-- always prompt.
abbrev pub is_grantable : String → Bool
is_grantable method =
    text_eq method "wallet_signTypedData"
    || text_eq method "wallet_addInvokeTransaction"
    || text_eq method "wallet_addDeclareTransaction"
    || text_eq method "companion_createAgentAccount"
    || text_eq method "companion_deployAccount"
    || text_eq method "companion_signAndProve"

-- The caller is the client with the id, and has an active grant.
abbrev pub has_grant : Env → Option PairedClient → String → Bool
has_grant e none id = false
has_grant e (some client) id = text_eq client.id id && grant_active client e.now

abbrev pub is_approve : Decision → Bool
is_approve approve = true
is_approve reject = false

-- The event is an approval of this method: the user was asked and approves, or a grant of the caller
-- is active and the method is one that a grant covers.
abbrev pub is_approval : Env → Option PairedClient → String → Event → Bool
is_approval e caller method (prompted req approve) =
    text_eq req.method method && is_approve (e.approver req)
is_approval e caller method (prompted req reject) = false
is_approval e caller method (auto_approved id for_method) =
    text_eq for_method method && is_grantable method && has_grant e caller id
is_approval e caller method (signed _ _ _ _) = false
is_approval e caller method (broadcast _) = false

abbrev pub has_approval : Env → Option PairedClient → String → List Event → Bool
has_approval e caller method [] = false
has_approval e caller method (event ∷ older) =
    let rest = has_approval e caller method older in is_approval e caller method event || rest

abbrev pub is_effect : Event → Bool
is_effect (signed _ _ _ _) = true
is_effect (broadcast _) = true
is_effect _ = false

-- Every signature and every broadcast comes after an approval.
abbrev pub gated : Env → Option PairedClient → String → List Event → Bool
gated e caller method [] = true
gated e caller method (event ∷ older) =
    let rest = gated e caller method older in
    (not (is_effect event) || has_approval e caller method older) && rest

-- What only an approved request may change.
abbrev pub protected :
    ServerState → WalletSession × ClientStore × List Value × Option (Option EncryptedVault)
protected st = (st.session, st.clients, st.watched_assets, st.vault_store)

abbrev pub Approved : Env → Option PairedClient → String → World → Type 0
Approved e caller method w =
    (gated e caller method w.events ≡ true) × (has_approval e caller method w.events ≡ true)

-- `after` comes from `before`: every effect is approved, and without an approval the protected state
-- is that before, or what others made of it while a prompt was open.
abbrev pub Outcome : Env → Option PairedClient → String → World → World → Type 0
Outcome e caller method before after =
    (gated e caller method after.events ≡ true)
    × ((has_approval e caller method after.events ≡ true)
        ⊎ (protected after.state ≡ protected before.state)
        ⊎ (protected after.state ≡ protected (e.meanwhile before.state)))
