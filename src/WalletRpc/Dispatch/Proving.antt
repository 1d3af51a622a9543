-- ===== src/WalletRpc/Dispatch/Proving.antt =====
-- On-device proving, and the feedback link (crates/wallet-rpc/src/dispatch.rs).
use strkd.Prelude.{String, Option, none, some, List, [], ◌∷◌, ◌++◌, map}
use strkd.Prelude.Text.{◌<>◌}
use strkd.Prelude.Json.{Value, text, number, object_of, array_of, get}
use strkd.Prelude.Result.{Result, ok, err}
use strkd.WalletRpc.Dispatch.Invoke.{prover_or_err, enqueue}
use strkd.WalletRpc.Dispatch.Params.{param_str, opt_param_str, or_default}
use strkd.WalletRpc.Error.{WalletRpcError, invalid_request}
use strkd.WalletRpc.Handler.{Env, Action, ◌>>=◌, done, steps}
use strkd.WalletRpc.State.{ServerState}
use strkd.Prover.Jobs.{
  JobStatus, queued, proving, succeeded, failed, Job, Activity, recent_activity,
}
use strkd.Prover.Jobs

abbrev pub status_json : JobStatus → Value
status_json queued = text "queued"
status_json proving = text "proving"
status_json succeeded = text "succeeded"
status_json failed = text "failed"

-- A field that is left out if it is `None`.
abbrev opt_entry : String → Option Value → List (String × Value)
opt_entry key none = []
opt_entry key (some v) = (key, v) ∷ []

abbrev opt_text : Option String → Option Value
opt_text none = none
opt_text (some s) = some (text s)

unfoldable pub job_json : Job Value → Value
job_json j = object_of (
    ("job_id", text j.job_id)
    ∷ ("status", status_json j.status)
    ∷ ("started_at_ms", number j.started_at_ms)
    ∷ (opt_entry "label" (opt_text j.label)
        ++ (opt_entry "result" j.result ++ opt_entry "error" (opt_text j.error))))

unfoldable pub activity_json : Activity → Value
activity_json a = object_of (
    ("seq", number a.seq)
    ∷ ("job_id", text a.job_id)
    ∷ ("status", status_json a.status)
    ∷ ("started_at_ms", number a.started_at_ms)
    ∷ opt_entry "label" (opt_text a.label))

module _ (e : Env) where
  unfoldable pub handle_prove : Value → Action Value
  handle_prove params = do
    job_id ← steps (
        enqueue e (record {
          payload = or_default params (get params "payload");
          label = opt_param_str params "label";
          network = or_default "mainnet" (opt_param_str params "network");
        }))
    done (
        object_of (
          ("job_id", text job_id)
          ∷ ("status", text "queued")
          ∷ (
            "next",
            text
                "poll companion_proveStatus { job_id } until status is \"succeeded\" or \"failed\"",
          )
          ∷ []))

unfoldable pub handle_prove_status : Value → ServerState → Result WalletRpcError Value
handle_prove_status params st = elim (prover_or_err st) [
  | err x ↦ err x
  | ok p ↦ elim (param_str params "job_id") [
    | err x ↦ err x
    | ok job_id ↦ elim (Jobs.get job_id p.jobs) [
      | some job ↦ ok (job_json job)
      | none ↦ err (invalid_request ("unknown job '" <> job_id <> "'"))
    ]
  ]
]

unfoldable pub handle_proof_activity : ServerState → Result WalletRpcError Value
handle_proof_activity st = elim (prover_or_err st) [
  | err x ↦ err x
  | ok p ↦ ok (object_of (("activity", array_of (map activity_json (recent_activity p.jobs))) ∷ []))
]
