-- ===== src/WalletRpc/Error.antt =====
-- Errors and their wire codes (crates/wallet-rpc/src/error.rs), and the JSON-RPC messages
-- (crates/wallet-rpc/src/jsonrpc.rs). A code is whether it is negative, and its size.
use strkd.Prelude.{ℕ, String, Bool, true, false, Option, none, some}
use strkd.Prelude.Text.{◌<>◌}
use strkd.Prelude.Json.{Value}
use strkd.Prelude.Formats.{Formats}
use strkd.WalletCore.Domain.{
  Domain, CoreError, invalid_mnemonic, derivation, signing, address, bad_passphrase_or_corrupt,
  serialization, kdf, unsupported_vault_version, crypto, invalid_contract_class, index_out_of_range,
}

pub data WalletRpcError : Type 0 where
  user_refused : WalletRpcError
  invalid_request : String → WalletRpcError
  deployment_data_not_available chain_id_not_supported not_registered : WalletRpcError
  strk20_not_registered insufficient_private_balance privacy_leak : String → WalletRpcError
  api_version_not_supported : WalletRpcError
  unknown : String → WalletRpcError
  locked forbidden : WalletRpcError
  transport_rejected node : String → WalletRpcError
  no_node : WalletRpcError
  precondition not_implemented : String → WalletRpcError
  parse : WalletRpcError

unfoldable pub code : WalletRpcError → Bool × ℕ
code user_refused = (false, 113)
code (invalid_request _) = (false, 114)
code deployment_data_not_available = (false, 116)
code chain_id_not_supported = (false, 117)
code not_registered = (false, 118)
code (strk20_not_registered _) = (false, 118)
code (insufficient_private_balance _) = (false, 119)
code (privacy_leak _) = (false, 120)
code api_version_not_supported = (false, 162)
code (unknown _) = (false, 163)
code locked = (true, 32001)
code forbidden = (true, 32002)
code (transport_rejected _) = (true, 32003)
code (node _) = (true, 32004)
code no_node = (true, 32005)
code (precondition _) = (true, 32006)
code (not_implemented _) = (true, 32601)
code parse = (true, 32700)

unfoldable pub message : WalletRpcError → String
message user_refused = "user refused the operation"
message (invalid_request m) = "invalid request payload: " <> m
message deployment_data_not_available = "deployment data not available"
message chain_id_not_supported = "chain id not supported"
message not_registered = "caller is not a registered client"
message (strk20_not_registered a) =
    a <> " has not registered a viewing key with the STRK20 pool (call companion_strk20Register)"
message (insufficient_private_balance m) = "insufficient private balance: " <> m
message (privacy_leak m) = "privacy leak: " <> m
message api_version_not_supported = "api version not supported"
message (unknown m) = "unknown error: " <> m
message locked = "wallet is locked"
message forbidden = "operation not permitted for this caller"
message (transport_rejected m) = "request rejected: " <> m
message (node m) = "node error: " <> m
message no_node = "no Starknet node configured: supply nonce + resource_bounds, or set an RPC URL"
message (precondition m) = m
message (not_implemented m) = "not implemented: " <> m
message parse = "parse error: body is not valid JSON"

pub record RpcErrorObject : Type 0 where
  pub code : Bool × ℕ
  pub message : String

unfoldable pub to_object : WalletRpcError → RpcErrorObject
unfolding code message
to_object e = record { code = code e; message = message e }

-- `{domain:?}`
abbrev domain_debug : Domain → String
domain_debug Domain.user = "User"
domain_debug Domain.agent = "Agent"

-- `From<CoreError>`
unfoldable pub from_core : Formats → CoreError → WalletRpcError
from_core f CoreError.locked = locked
from_core f bad_passphrase_or_corrupt = invalid_request "incorrect passphrase or corrupt vault"
from_core f (invalid_contract_class m) = invalid_request ("contract_class: " <> m)
from_core f (index_out_of_range d index) = invalid_request (
    "account index "
    <> f.decimal index
    <> " is out of range for the "
    <> domain_debug d
    <> " branch")
from_core f invalid_mnemonic = unknown "core operation failed"
from_core f derivation = unknown "core operation failed"
from_core f signing = unknown "core operation failed"
from_core f address = unknown "core operation failed"
from_core f serialization = unknown "core operation failed"
from_core f kdf = unknown "core operation failed"
from_core f (unsupported_vault_version _) = unknown "core operation failed"
from_core f crypto = unknown "core operation failed"

pub record Request : Type 0 where
  pub method : String
  pub params : Value
  pub id : Value

-- Without the constant field `jsonrpc`.
pub record Response : Type 0 where
  pub result : Option Value
  pub error : Option RpcErrorObject
  pub id : Value

abbrev pub ok_response : Value → Value → Response
ok_response id result = record { result = some result; error = none; id = id }

abbrev pub err_response : Value → RpcErrorObject → Response
err_response id error = record { result = none; error = some error; id = id }
