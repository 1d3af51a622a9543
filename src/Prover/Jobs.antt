-- ===== src/Prover/Jobs.antt =====
-- Jobs and the activity feed (crates/prover/src/jobs.rs). The ids, "p" and the number as `format!`
-- prints it, are the parameter `id_of`; times are arguments.
use strkd.Prelude.{
  ℕ, ◌+◌, ◌%◌, ◌^◌, String, Option, none, some, List, [], ◌∷◌, ◌++◌, length, ltb, if◌then◌else◌,
}
use strkd.Prelude.Text.{text_eq}

pub data JobStatus : Type 0 where
  queued : JobStatus
  proving : JobStatus
  succeeded : JobStatus
  failed : JobStatus

pub record Job (V : Type 0) : Type 0 where
  pub job_id : String
  pub status : JobStatus
  pub started_at_ms : ℕ
  pub label : Option String
  pub result : Option V
  pub error : Option String

pub record Activity : Type 0 where
  pub seq : ℕ
  pub job_id : String
  pub status : JobStatus
  pub started_at_ms : ℕ
  pub label : Option String

-- The map of jobs, the feed with its oldest entry first, and the next job's number.
pub record Jobs (V : Type 0) : Type 0 where
  pub jobs : List (String × Job V)
  pub activity : List Activity
  pub seq : ℕ

abbrev pub activity_cap : ℕ
activity_cap = 100

-- `back().map(|a| a.seq + 1).unwrap_or(0)`
unfoldable pub next_seq : List Activity → ℕ
next_seq [] = 0
next_seq (a ∷ []) = (a.seq + 1) % 2 ^ 64
next_seq (a ∷ b ∷ feed) = next_seq (b ∷ feed)

-- `while len() > ACTIVITY_CAP { pop_front() }`
unfoldable pub trim : List Activity → List Activity
trim [] = []
trim (a ∷ feed) =
    let rest = trim feed in if ltb activity_cap (length (a ∷ feed)) then rest else a ∷ feed

abbrev pub reversed : List Activity → List Activity
reversed [] = []
reversed (a ∷ feed) = reversed feed ++ (a ∷ [])

module _ {V : Type 0} where
  -- `Jobs::new`
  unfoldable pub new : ℕ → Jobs V
  new start_seq = record { jobs = []; activity = []; seq = start_seq }

  unfoldable pub push_activity : Job V → List Activity → List Activity
  push_activity job feed = trim (
      feed
      ++ (record {
        seq = next_seq feed;
        job_id = job.job_id;
        status = job.status;
        started_at_ms = job.started_at_ms;
        label = job.label;
      }
          ∷ []))

  -- `HashMap::get` and `HashMap::insert`
  unfoldable pub get_in : String → List (String × Job V) → Option (Job V)
  get_in id [] = none
  get_in id ((k, j) ∷ jobs) = let rest = get_in id jobs in if text_eq k id then some j else rest

  unfoldable pub insert_in : String → Job V → List (String × Job V) → List (String × Job V)
  insert_in id job [] = (id, job) ∷ []
  insert_in id job ((k, j) ∷ jobs) =
      let rest = insert_in id job jobs in if text_eq k id then (k, job) ∷ jobs else (k, j) ∷ rest

  abbrev queued_job : String → ℕ → Option String → Job V
  queued_job id now label = record {
    job_id = id;
    status = queued;
    started_at_ms = now;
    label = label;
    result = none;
    error = none;
  }

  -- `fetch_add` wraps.
  unfoldable pub create : (ℕ → String) → ℕ → Option String → Jobs V → Jobs V × String
  create id_of now label s =
      let id = id_of s.seq in
      let job = queued_job id now label in
      (
        record {
          jobs = insert_in id job s.jobs;
          activity = push_activity job s.activity;
          seq = (s.seq + 1) % 2 ^ 64;
        },
        id,
      )

  -- `get_mut(job_id)`, the change, and the entry in the feed: the body that the three share.
  unfoldable pub edit : String → (Job V → Job V) → Jobs V → Jobs V
  edit id f s = elim (get_in id s.jobs) [
    | none ↦ s
    | some j ↦ record s {
      jobs = insert_in id (f j) s.jobs;
      activity = push_activity (f j) s.activity;
    }
  ]

  unfoldable pub set_status : String → JobStatus → Jobs V → Jobs V
  set_status id status = edit id λ j. record j { status = status }

  unfoldable pub succeed : String → V → Jobs V → Jobs V
  succeed id result = edit id λ j. record j { status = succeeded; result = some result }

  unfoldable pub fail : String → String → Jobs V → Jobs V
  fail id error = edit id λ j. record j { status = failed; error = some error }

  unfoldable pub get : String → Jobs V → Option (Job V)
  get id s = get_in id s.jobs

  unfoldable pub recent_activity : Jobs V → List Activity
  recent_activity s = reversed s.activity
