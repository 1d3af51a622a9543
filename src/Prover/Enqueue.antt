-- ===== src/Prover/Enqueue.antt =====
-- The proving companion (crates/prover/src/lib.rs): a job is created, proved and recorded. The
-- prover and the clock are parameters, as are the results of writing a file.
use strkd.Prelude.{ℕ, String, Bool, Option, none, some, List, [], ◌∷◌, if◌then◌else◌}
use strkd.Prelude.Result.{Result, ok, err}
use strkd.Prelude.Text.{text_eq}
use strkd.Prover.Jobs.{Jobs, proving, create, set_status, succeed, fail}

pub record ProofRecord (V : Type 0) : Type 0 where
  pub job_id : String
  pub label : Option String
  pub network : String
  pub created_at_ms : ℕ
  pub prove_ms : ℕ
  pub status : String
  pub payload : V
  pub proof : Option V
  pub error : Option String

pub record ProveRequest (V : Type 0) : Type 0 where
  pub payload : V
  pub label : Option String
  pub network : String

-- The jobs, and the records in storage, a file for each job, the last one written first.
pub record ProverState (V : Type 0) : Type 0 where
  pub jobs : Jobs V
  pub storage : List (ProofRecord V)

-- What the clocks give: the times of the job's creation and of the start of proving, and how long
-- the prover took.
pub record Clock : Type 0 where
  pub created : ℕ
  pub started : ℕ
  pub elapsed : ℕ

module _ {V : Type 0} where
  -- The records in other files than that of the job.
  unfoldable pub other_files : String → List (ProofRecord V) → List (ProofRecord V)
  other_files job_id [] = []
  other_files job_id (rec ∷ storage) =
      let rest = other_files job_id storage in
      if text_eq rec.job_id job_id then rest else rec ∷ rest

  -- `Storage::save`, best effort: `written` says whether the file was. A record of the same job is
  -- overwritten.
  unfoldable pub save : Bool → ProofRecord V → List (ProofRecord V) → List (ProofRecord V)
  save written rec storage = if written then rec ∷ other_files rec.job_id storage else storage

  -- The job after the prover's answer.
  unfoldable pub settle_job : String → Result String V → Jobs V → Jobs V
  settle_job job_id (ok proof) jobs = succeed job_id proof jobs
  settle_job job_id (err e) jobs = fail job_id e jobs

  abbrev pub base_record : String → ProveRequest V → Clock → ProofRecord V
  base_record job_id req clock = record {
    job_id = job_id;
    label = req.label;
    network = req.network;
    created_at_ms = clock.started;
    prove_ms = clock.elapsed;
    status = "";
    payload = req.payload;
    proof = none;
    error = none;
  }

  unfoldable pub record_of : String → ProveRequest V → Clock → Result String V → ProofRecord V
  record_of job_id req clock (ok proof) = record (base_record job_id req clock) {
    status = "succeeded";
    proof = some proof;
  }
  record_of job_id req clock (err e) = record (base_record job_id req clock) {
    status = "failed";
    error = some e;
  }

  -- The task that `enqueue_prove` spawns, run to its end.
  unfoldable pub prove_task :
      (ProveRequest V → Result String V)
      → Bool
      → Clock
      → String
      → ProveRequest V
      → ProverState V
      → ProverState V
  prove_task prove written clock job_id req st =
      let res = prove req in
      record {
        jobs = settle_job job_id res (set_status job_id proving st.jobs);
        storage = save written (record_of job_id req clock res) st.storage;
      }

module _ {V : Type 0} (id_of : ℕ → String) (prove : ProveRequest V → Result String V) where
  -- The new job's id, and the state once the spawned task has ended, nothing else having run.
  unfoldable pub enqueue_prove :
      Bool → Clock → ProveRequest V → ProverState V → String × ProverState V
  enqueue_prove written clock req st =
      let (jobs, job_id) = create id_of clock.created req.label st.jobs in
      (job_id, prove_task prove written clock job_id req (record st { jobs = jobs }))

  -- The same without a record.
  unfoldable pub prove_unrecorded :
      Clock → ProveRequest V → ProverState V → Result String V × ProverState V
  prove_unrecorded clock req st =
      let (jobs, job_id) = create id_of clock.created req.label st.jobs in
      let res = prove req in
      (res, record st { jobs = settle_job job_id res (set_status job_id proving jobs) })
