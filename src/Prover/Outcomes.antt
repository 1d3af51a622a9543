-- ===== src/Prover/Outcomes.antt =====
-- What a poller of a job, the storage and the caller see once a job has ended.
use strkd.Prelude.{
  ◌≡◌, ◌∙◌, sym, refl, String, true, Option, none, some, List, [], ◌∷◌, arith, if◌then◌else◌, ℕ,
  Bool-cases, inl, inr, subst,
}
use strkd.Prelude.Text.{text_eq, text_eq_refl, text_eq-true}
use strkd.Prelude.Result.{Result, ok, err}
use strkd.Prover.Jobs.{
  Job, queued, proving, succeeded, failed, Jobs, get_in, insert_in, create, edit, set_status,
  succeed, fail, get,
}
use strkd.Prover.Enqueue.{ProveRequest, ProverState, Clock, settle_job, prove_unrecorded}

text_eq_join : (s t u : String) → text_eq s u ≡ true → text_eq t u ≡ true → text_eq s t ≡ true
text_eq_join s t u a b =
    subst (λ z. text_eq s z ≡ true) (text_eq-true s u a ∙ sym (text_eq-true t u b)) (text_eq_refl s)

module _ {V : Type 0} where
  get_in-insert_in :
      (k id : String) (job : Job V) (jobs : List (String × Job V))
      → get_in k (insert_in id job jobs) ≡ (if text_eq id k then some job else get_in k jobs)
  unfolding get_in insert_in
  get_in-insert_in k id job [] = refl
  get_in-insert_in k id job ((h, j) ∷ jobs) = elim (Bool-cases (text_eq h id)) [
    | inl e ↦
        let p = text_eq-true h id e in
        rw e (
          subst
            (λ z.
              (if text_eq h k then some job else get_in k jobs)
              ≡ (if text_eq z k then some job else if text_eq h k then some j else get_in k jobs))
            p (ground arith))
    | inr e ↦ rw e (ground (arith, get_in-insert_in k id job jobs, text_eq_join h id k))
  ]

  get-edit :
      (k id : String) (f : Job V → Job V) (s : Jobs V) (j : Job V)
      → get id s ≡ some j
      → get k (edit id f s) ≡ (if text_eq id k then some (f j) else get k s)
  unfolding get edit
  get-edit k id f s j e = rw (edit, e) (get_in-insert_in k id (f j) s.jobs)

  -- The job as it stands when the prover has answered.
  abbrev pub ended_job : String → ℕ → Option String → Result String V → Job V
  ended_job id now label (ok proof) = record {
    job_id = id;
    status = succeeded;
    started_at_ms = now;
    label = label;
    result = some proof;
    error = none;
  }
  ended_job id now label (err e) = record {
    job_id = id;
    status = failed;
    started_at_ms = now;
    label = label;
    result = none;
    error = some e;
  }

  get-create :
      (id_of : ℕ → String) (now : ℕ) (label : Option String) (s : Jobs V) (k : String)
      → get k (create id_of now label s).0 ≡ (
          if text_eq (id_of s.seq) k
          then some (record {
            job_id = id_of s.seq;
            status = queued;
            started_at_ms = now;
            label = label;
            result = none;
            error = none;
          })
          else get k s)
  unfolding get create
  get-create id_of now label s k = get_in-insert_in k (id_of s.seq) _ s.jobs

  module _ (id_of : ℕ → String) (now : ℕ) (label : Option String) (s : Jobs V) where
    abbrev id : String
    id = id_of s.seq

    abbrev fresh : Job V
    fresh = record {
      job_id = id;
      status = queued;
      started_at_ms = now;
      label = label;
      result = none;
      error = none;
    }

    abbrev started : Jobs V
    started = set_status id proving (create id_of now label s).0

    get-started :
        (k : String)
        → get k started
          ≡ (if text_eq id k then some (record fresh { status = proving }) else get k s)
    unfolding set_status
    get-started k =
        let c : get id (create id_of now label s).0 ≡ some fresh =
          ground (arith, get-create id_of now label s id, text_eq_refl id) in
        ground (
          arith,
          get-edit k id (λ j. record j { status = proving }) (create id_of now label s).0 fresh c,
          get-create id_of now label s k,
        )

    get-settled :
        (res : Result String V) (k : String)
        → get k (settle_job id res started)
          ≡ (if text_eq id k then some (ended_job id now label res) else get k s)
    unfolding settle_job succeed fail
    get-settled (ok proof) k =
        let c : get id started ≡ some (record fresh { status = proving }) =
          ground (arith, get-started id, text_eq_refl id) in
        ground (
          arith,
          get-edit k id (λ j. record j { status = succeeded; result = some proof }) started _ c,
          get-started k,
        )
    get-settled (err e) k =
        let c : get id started ≡ some (record fresh { status = proving }) =
          ground (arith, get-started id, text_eq_refl id) in
        ground (
          arith,
          get-edit k id (λ j. record j { status = failed; error = some e }) started _ c,
          get-started k,
        )

module _ {V : Type 0} (id_of : ℕ → String) (prove : ProveRequest V → Result String V) where
  -- `prove_unrecorded` answers what the prover answers, leaves the storage as it was, and shows in
  -- the jobs as `enqueue_prove` does.
  pub prove_unrecorded-get :
      (clock : Clock) (req : ProveRequest V) (st : ProverState V) (k : String)
      → ((prove_unrecorded id_of prove clock req st).0 ≡ prove req)
        × ((prove_unrecorded id_of prove clock req st).1.storage ≡ st.storage)
        × (get k (prove_unrecorded id_of prove clock req st).1.jobs ≡ (
            if text_eq (id_of st.jobs.seq) k
            then some (ended_job (id_of st.jobs.seq) clock.created req.label (prove req))
            else get k st.jobs))
  unfolding prove_unrecorded create
  prove_unrecorded-get clock req st k =
      (refl, refl, get-settled id_of clock.created req.label st.jobs (prove req) k)
