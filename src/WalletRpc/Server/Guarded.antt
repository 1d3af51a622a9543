-- ===== src/WalletRpc/Server/Guarded.antt =====
-- Which requests reach dispatch.
use strkd.Prelude.{
  ℕ, String, ◌≡◌, ◌↔◌, ◌⊎◌, refl, inl, inr, Bool, true, false, Option, none, some, arith,
  Option-cases,
}
use strkd.Prelude.Text.{text_eq}
use strkd.Prelude.Result.{ok, Result-cases}
use strkd.WalletRpc.Dispatch.PrepareDeclare.{SierraClass}
use strkd.WalletRpc.Dispatch.Respond.{Strk20}
use strkd.WalletRpc.Dispatch.Serve.{dispatch}
use strkd.WalletRpc.Error.{Request, Response}
use strkd.WalletRpc.Handler.{Env, World}
use strkd.WalletRpc.Server.{
  HeaderMap, contains_key, header_str, is_loopback_host, transport_guard, rpc_handler, bearer,
  answer,
}

-- Shaped like a request of a native program on this machine.
abbrev pub IsNative : HeaderMap → Type 0
IsNative headers =
    (contains_key "origin" headers ≡ false)
    × (contains_key "referer" headers ≡ false)
    × ((host : String) × (header_str "host" headers ≡ some host) × (is_loopback_host host ≡ true))
    × ((name : String) × (header_str "x-companion-client" headers ≡ some name)
        × (text_eq name "" ≡ false))

guard-IsNative : (headers : HeaderMap) → transport_guard headers ≡ ok tt → IsNative headers
unfolding transport_guard
guard-IsNative headers h = elim (Option-cases (header_str "host" headers)) [
  | inl e ↦ absurd (ground (arith, e, h))
  | inr (host, e) ↦ elim (Option-cases (header_str "x-companion-client" headers)) [
    | inl f ↦ absurd (ground (arith, e, f, h))
    | inr (name, f) ↦ (
      ground (arith, h),
      ground (arith, h),
      (host, e, ground (arith, e, f, h)),
      (name, f, ground (arith, e, f, h)),
    )
  ]
]

IsNative-guard : (headers : HeaderMap) → IsNative headers → transport_guard headers ≡ ok tt
unfolding transport_guard
IsNative-guard headers (o, r, (host, e, l), (name, f, n)) = ground (arith, o, r, e, l, f, n)

-- The guard lets exactly the native requests pass: no Origin and no Referer, a Host header that names
-- the loopback interface, and a client header that is not empty.
pub transport_guard_iff :
    (headers : HeaderMap) → (transport_guard headers ≡ ok tt) ↔ IsNative headers
transport_guard_iff headers = (guard-IsNative headers, IsNative-guard headers)

answer-world : (p : Option Response × World) → (answer p).1 ≡ p.1
answer-world (none, w) = refl
answer-world (some r, w) = refl

-- A request changes nothing, signs nothing and prompts nobody, unless it is native and its body is a
-- JSON-RPC request; then it is dispatched with the token of its Authorization header.
pub rpc_handler-cases :
    (e : Env) (classes : SierraClass) (pool : Strk20) (taken : Bool) (latency_ms : ℕ)
    (headers : HeaderMap) (read : Option Request) (w : World)
    → ((rpc_handler e classes pool taken latency_ms headers read w).1 ≡ w)
      ⊎ (IsNative headers
          × ((req : Request) × (read ≡ some req)
              × ((rpc_handler e classes pool taken latency_ms headers read w).1
                  ≡ (dispatch e classes pool taken latency_ms (bearer headers) req w).1)))
unfolding rpc_handler
rpc_handler-cases e classes pool taken latency_ms headers read w =
    elim (Result-cases (transport_guard headers)) [
      | inr (reason, g) ↦ inl (rw (rpc_handler, g) refl)
      | inl (tt, g) ↦ elim (Option-cases read) [
        | inl f ↦ inl (rw (rpc_handler, g, f) refl)
        | inr (req, f) ↦ inr (
          guard-IsNative headers g,
          (
            req,
            f,
            rw (rpc_handler, g, f)
                (answer-world (dispatch e classes pool taken latency_ms (bearer headers) req w)),
          ),
        )
      ]
    ]
