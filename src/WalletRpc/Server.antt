-- ===== src/WalletRpc/Server.antt =====
-- The transport in front of dispatch (crates/wallet-rpc/src/server.rs). Headers are pairs of a
-- lower-case name and a value, `none` for a value that is no visible ASCII; `read` is what
-- `serde_json` makes of the body.
pub mod Guarded
use strkd.Prelude.{
  ℕ, suc, ◌^◌, String, Bool, true, false, not, ◌&&◌, ◌||◌, Option, none, some, List, [], ◌∷◌, ◌++◌,
  ltb, ◌==◌, if◌then◌else◌,
}
use strkd.Prelude.Text.{text_eq}
use strkd.Prelude.Json.{Value, null, get, as_u64}
use strkd.Prelude.Formats.{strip_prefix}
use strkd.Prelude.Result.{Result, ok, err}
use Prim.Native.Char.{code}
use strkd.WalletRpc.Dispatch.PrepareDeclare.{SierraClass}
use strkd.WalletRpc.Dispatch.Respond.{Strk20}
use strkd.WalletRpc.Dispatch.Serve.{dispatch}
use strkd.WalletRpc.Error.{transport_rejected, parse, to_object, Request, Response, err_response}
use strkd.WalletRpc.Handler.{Env, World}

abbrev pub HeaderMap : Type 0
HeaderMap = List (String × Option String)

-- `HeaderMap::get` and `to_str().ok()`: the first value of the name.
abbrev pub header : String → HeaderMap → Option (Option String)
header name [] = none
header name ((n, v) ∷ headers) =
    let rest = header name headers in if text_eq n name then some v else rest

abbrev pub contains_key : String → HeaderMap → Bool
contains_key name headers = elim (header name headers) [ none ↦ false | some _ ↦ true ]

abbrev pub header_str : String → HeaderMap → Option String
header_str name headers = elim (header name headers) [ none ↦ none | some v ↦ v ]

unfoldable pub bearer : HeaderMap → Option String
bearer headers = elim (header_str "authorization" headers) [
  | none ↦ none
  | some raw ↦ elim (strip_prefix "Bearer " raw) [ none ↦ some raw | some token ↦ some token ]
]

-- `split(c).next()`, the part before the first `c`.
unfoldable pub before : ℕ → String → String
before c String.[] = String.[]
before c (String.◌∷◌ d s) =
    let rest = before c s in if code d == c then String.[] else String.◌∷◌ d rest

-- `matches(c).count()`
unfoldable pub count_of : ℕ → String → ℕ
count_of c String.[] = 0
count_of c (String.◌∷◌ d s) = let n = count_of c s in if code d == c then suc n else n

-- The host without brackets or port.
unfoldable pub host_name : String → String
host_name host = elim (strip_prefix "[" host) [
  | some rest ↦ before 93 rest
  | none ↦ if count_of 58 host == 1 then before 58 host else host
]

unfoldable pub is_loopback_host : String → Bool
unfolding host_name
is_loopback_host host =
    text_eq (host_name host) "127.0.0.1"
    || text_eq (host_name host) "localhost"
    || text_eq (host_name host) "::1"

abbrev loopback : Option String → Bool
loopback none = false
loopback (some host) = is_loopback_host host

abbrev named : Option String → Bool
named none = false
named (some v) = not (text_eq v "")

unfoldable pub transport_guard : HeaderMap → Result String (Unit {0})
transport_guard headers =
    if contains_key "origin" headers || contains_key "referer" headers
    then err "Origin/Referer header not allowed"
    else if not (loopback (header_str "host" headers))
    then err "Host must be loopback"
    else if not (named (header_str "x-companion-client" headers))
    then err "missing X-Companion-Client header"
    else ok tt

pub data StatusCode : Type 0 where
  ok_200 : StatusCode
  forbidden_403 : StatusCode

-- A response, or none where the task panics.
abbrev pub answer : Option Response × World → Option (StatusCode × Response) × World
answer (none, w) = (none, w)
answer (some r, w) = (some (ok_200, r), w)

unfoldable pub rpc_handler :
    Env
    → SierraClass
    → Strk20
    → Bool
    → ℕ
    → HeaderMap
    → Option Request
    → World
    → Option (StatusCode × Response) × World
rpc_handler e classes pool taken latency_ms headers read w = elim (transport_guard headers) [
  | err reason ↦
      (some (forbidden_403, err_response null (to_object (transport_rejected reason))), w)
  | ok _ ↦ elim read [
    | none ↦ (some (ok_200, err_response null (to_object parse)), w)
    | some req ↦ answer (dispatch e classes pool taken latency_ms (bearer headers) req w)
  ]
]

-- `read_locked_port`, on the JSON of `port.lock` if it can be read: a port that a u16 holds.
unfoldable pub read_locked_port : Option Value → Option ℕ
read_locked_port none = none
read_locked_port (some doc) = elim (get doc "port") [
  | none ↦ none
  | some v ↦ elim (as_u64 v) [ none ↦ none | some n ↦ if ltb n (2 ^ 16) then some n else none ]
]

-- `bind_sticky`: the port that is tried first; 0 is left to the system.
unfoldable pub sticky_port : Option ℕ → (ℕ → Bool) → ℕ
sticky_port none free = 0
sticky_port (some p) free = if not (p == 0) && free p then p else 0
