-- ===== src/Service/Creation.antt =====
-- A queued run and its job are created together, or not at all (src/ragops/evaluation/service.py).
use rag_eval_platform.Prelude.{
  ℕ, ◌≡◌, refl, sym, ap, ◌∙◌, subst, ◌⊎◌, inl, inr, true, false, none, some, List, [], ◌∷◌, ◌++◌,
  arith, ◌==◌, all, contains, ==_refl, Result, ok, err, pure, continue, commit, ◌>>=◌, Error,
}
use rag_eval_platform.Prelude.Dict.{Dict, keys}
use rag_eval_platform.Runs.{created, queued, ensure_state_transition, EvalRunSpec}
use rag_eval_platform.Runs.Store.{
  Database, EvalRunRow, find_run, update_run, variant_rows, create, moved, set_state,
}
use rag_eval_platform.Queue.{Job, JobRow, Table, enqueue, find_key, new_row}
use rag_eval_platform.Runs.Store.Pinned.{find_run-own}
use rag_eval_platform.Queue.Submit.{is_supported, EnqueueSpec, enqueue_lem, find_key-append}
use rag_eval_platform.Queue.Table.{IsFree, idempotency_keys}
use rag_eval_platform.Service.{
  Platform, EvaluationService, Fresh, with_jobs, on_runs, resolve_variant_hashes, job_spec,
  queue_job, queue_run, create_resolved, submit_retrieval_evaluation,
}
use rag_eval_platform.Service.Hashes.{covers}

find_key-free :
    (k : ℕ) (rows : Table) → IsFree (some k) (idempotency_keys rows) → find_key k rows ≡ none
find_key-free k [] h = refl
find_key-free k (r ∷ rows) h = rw (h.0) (find_key-free k rows h.1)

find_run-append_own :
    (i : ℕ) (x : EvalRunRow) (runs : List EvalRunRow)
    → find_run i runs ≡ none
    → (i == x.id) ≡ true
    → find_run i (runs ++ x ∷ []) ≡ some x
find_run-append_own i x [] h k = rw k refl
find_run-append_own i x (r ∷ runs) h k = ground (arith, find_run-append_own i x runs)

module _ (s : EvaluationService) (fresh : Fresh) (spec : EvalRunSpec) (p : Platform)
    (new : find_run fresh.run_id p.evaluations.runs ≡ none) where
  abbrev new_run : EvalRunRow
  new_run = record {
    id = fresh.run_id;
    spec = spec;
    state = created;
    completed_queries = 0;
    total_queries = 0;
    git_commit = s.git_commit;
    image_digest = s.image_digest;
    index_fingerprints = [];
    created_at = fresh.stamp;
    completed_at = none;
  }

  abbrev queued_run : EvalRunRow
  queued_run = moved fresh.now queued new_run

  abbrev runs_before : List EvalRunRow
  runs_before = p.evaluations.runs ++ new_run ∷ []

  -- the tables of runs once the run is queued
  abbrev queued_in : Dict ℕ → Database
  queued_in hashes = record p.evaluations {
    runs = update_run fresh.run_id queued_run runs_before;
    run_variants = p.evaluations.run_variants ++ variant_rows fresh.run_id hashes spec.variants;
  }

  there : find_run fresh.run_id runs_before ≡ some new_run
  there = find_run-append_own fresh.run_id new_run p.evaluations.runs new (==_refl fresh.run_id)

  created_and_queued :
      (hashes : Dict ℕ)
      → all (λ v. contains v (keys hashes)) spec.variants ≡ true
      → (on_runs (create fresh.run_id fresh.stamp spec hashes s.git_commit s.image_digest)
            >>= queue_run s fresh)
          p
        ≡ (ok queued_run, record p { evaluations = queued_in hashes })
  unfolding create set_state ensure_state_transition
  created_and_queued hashes a = rw a (rw there refl)

  -- the job that has the run's key: the new one, or one that had it before
  abbrev pub JobIn : Table → JobRow → Type 0
  JobIn jobs job =
      (find_key (s.job_key fresh.run_id) jobs ≡ some job)
      × ((job ≡ new_row fresh.job_id fresh.stamp (job_spec s fresh))
          ⊎ (find_key (s.job_key fresh.run_id) p.jobs ≡ some job))

  -- Submitting an evaluation with a run id that is new, on every branch. Either it raises and changes
  -- nothing, and then the dataset, the split or a variant is unknown, or the database is not one that
  -- the queue supports. Or it returns the new run, which is stored QUEUED with the given
  -- specification, and a job with the run's key is in the queue: the new one, for this run, or one that
  -- had the key already. So no run is left queued without a job.
  pub submit_lem :
      ((x : Error) × (submit_retrieval_evaluation s fresh spec p ≡ (err x, p))
        × ((resolve_variant_hashes s spec ≡ err x) ⊎ (is_supported s.dialect ≡ false)))
      ⊎ ((run : EvalRunRow) × (p' : Platform) × (submit_retrieval_evaluation s fresh spec p
            ≡ (ok run, p'))
          × (find_run fresh.run_id p'.evaluations.runs ≡ some run)
          × (run.state ≡ queued)
          × (run.spec ≡ spec)
          × ((job : JobRow) × JobIn p'.jobs job))
  unfolding submit_retrieval_evaluation
  submit_lem = go (resolve_variant_hashes s spec) refl
    where
      Goal : Result Error EvalRunRow × Platform → Type 0
      Goal out =
          ((x : Error) × (out ≡ (err x, p))
            × ((resolve_variant_hashes s spec ≡ err x) ⊎ (is_supported s.dialect ≡ false)))
          ⊎ ((run : EvalRunRow) × (p' : Platform) × (out ≡ (ok run, p'))
              × (find_run fresh.run_id p'.evaluations.runs ≡ some run)
              × (run.state ≡ queued)
              × (run.spec ≡ spec)
              × ((job : JobRow) × JobIn p'.jobs job))

      stored :
          (hashes : Dict ℕ) (out : Result Error Job) (jobs : Table)
          → EnqueueSpec s.dialect fresh.job_id fresh.stamp (job_spec s fresh) p.jobs (out, jobs)
          → Goal (
              commit p (
                continue
                  (λ job. pure queued_run)
                  (with_jobs (record p { evaluations = queued_in hashes }) (out, jobs))))
      stored hashes (err x) jobs (k, u, e, same) = inl (x, refl, inr u)
      stored hashes (ok job) jobs e = inr (
        queued_run,
        record p { evaluations = queued_in hashes; jobs = jobs },
        refl,
        find_run-own new_run queued_run runs_before there,
        refl,
        refl,
        queued_job e,
      )
        where
          queued_job :
              EnqueueSpec s.dialect fresh.job_id fresh.stamp
                (job_spec s fresh)
                p.jobs
                (ok job, jobs)
              → (job : JobRow) × JobIn jobs job
          queued_job (inl (e, free, same)) =
              let row : JobRow = new_row fresh.job_id fresh.stamp (job_spec s fresh) in
              (
                row,
                (
                  rw same (
                      find_key-append (s.job_key fresh.run_id) p.jobs row
                        (find_key-free (s.job_key fresh.run_id) p.jobs free) refl),
                  inl refl,
                ),
              )
          queued_job (inr (k, e, f, same)) =
              let key : s.job_key fresh.run_id ≡ k = cc (e) in
              let f' : find_key (s.job_key fresh.run_id) p.jobs ≡ some job =
                ap (λ (n : ℕ). find_key n p.jobs) key ∙ f in
              (job, (rw same f', inr f'))

      go :
          (r : Result Error (Dict ℕ))
          → resolve_variant_hashes s spec ≡ r
          → Goal (create_resolved s fresh spec true r p)
      go (err x) e = inl (x, refl, inl e)
      go (ok hashes) e =
          subst (λ out. Goal (commit p (continue (queue_job s fresh true) out)))
            (sym (created_and_queued hashes (covers s spec hashes e)))
            (stored hashes (enqueue s.dialect fresh.job_id fresh.stamp (job_spec s fresh) p.jobs).0
              (enqueue s.dialect fresh.job_id fresh.stamp (job_spec s fresh) p.jobs).1
              (enqueue_lem s.dialect fresh.job_id fresh.stamp (job_spec s fresh) p.jobs))
