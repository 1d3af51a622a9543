-- ===== src/Examples/Proving.antt =====
-- Jobs of the prover, and a plan's end, on concrete data.
use strkd.Prelude.{ℕ, zero, suc, ◌+◌, ◌≡◌, inl, inr, String, none, some, [], arith, if◌then◌else◌}
use strkd.Prelude.Text.{text_eq}
use strkd.Prelude.Result.{Result, ok}
use strkd.Strk20.Planner.{plan}
use strkd.Strk20.Planner.Total.{Settles, GoodWithin, plan-Settles}
use strkd.Prover.Jobs.{Jobs, new, get, create, succeed}
use strkd.Prover.Enqueue.{ProveRequest, ProverState, Clock, prove_unrecorded}
use strkd.Prover.Outcomes.{ended_job, prove_unrecorded-get}
use strkd.Prover.Feed.{IsFeed, Steps, stay, step, create_step, succeed_step, Steps-IsFeed}
use strkd.Examples.Planning.{toy, counter, intent, state}

counter-GoodWithin : (r : ℕ) → GoodWithin counter 3 r
counter-GoodWithin r = inr (inr (inl (omega arith)))

plan-Settles_example : Settles (plan toy counter 3 intent state 0)
plan-Settles_example = plan-Settles toy counter 3 intent state counter-GoodWithin 0

-- Ids in unary.
abbrev id_of : ℕ → String
id_of zero = "p"
id_of (suc n) = "p1"

abbrev prove : ProveRequest ℕ → Result String ℕ
prove req = ok (req.payload + 1)

abbrev request : ProveRequest ℕ
request = record { payload = 41; label = some "demo"; network = "SN_SEPOLIA" }

abbrev clock : Clock
clock = record { created = 5; started = 6; elapsed = 7 }

abbrev idle : ProverState ℕ
idle = record { jobs = new 0; storage = [] }

prove_unrecorded-get_example :
    ((prove_unrecorded id_of prove clock request idle).0 ≡ ok 42)
    × ((prove_unrecorded id_of prove clock request idle).1.storage ≡ [])
    × (get "p" (prove_unrecorded id_of prove clock request idle).1.jobs ≡ (
        if text_eq (id_of idle.jobs.seq) "p"
        then some (ended_job (id_of idle.jobs.seq) 5 (some "demo") (ok 42))
        else get "p" idle.jobs))
prove_unrecorded-get_example = prove_unrecorded-get id_of prove clock request idle "p"

abbrev one_job : Jobs ℕ
one_job = (create id_of 5 none (new 0)).0

ran : Steps id_of (new 0) (succeed "p" 42 one_job)
ran =
    step (new 0) one_job _
      (step (new 0) (new 0) one_job (stay (new 0)) (create_step 5 none (new 0)))
      (succeed_step "p" 42 one_job)

Steps-IsFeed_example : IsFeed (succeed "p" 42 one_job).activity
Steps-IsFeed_example = Steps-IsFeed id_of 0 (succeed "p" 42 one_job) ran
