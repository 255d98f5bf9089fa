-- ===== src/Service.antt =====
-- The creation and submission of evaluations: src/ragops/evaluation/service.py, over the tables of runs
-- and of jobs in one database.
pub mod Hashes
pub mod Creation
mod Tests
use rag_eval_platform.Prelude.{
  ℕ, Bool, true, false, not, Option, none, some, List, [], ◌∷◌, ◌==◌, if◌then◌else◌, Result, ok,
  err, Exec, pure, raise, transaction, ◌>>=◌, ◌>>◌, Error, value_error, key_error,
}
use rag_eval_platform.Prelude.Dict.{Dict, lookup}
use rag_eval_platform.Runs.{queued, EvalRunSpec}
use rag_eval_platform.Runs.Store.{Database, Session, EvalRunRow, load_run, create, set_state}
use rag_eval_platform.Queue.{JobSpec, Table, Queue, Dialect, enqueue}
use rag_eval_platform.Retrieval.{VariantConfig}
use rag_eval_platform.Retrieval.Pipeline.{DatasetManifest}

-- the two tables of one database
pub record Platform : Type 0 where
  pub evaluations : Database
  pub jobs : Table

-- `DatabaseEvaluationService`, with the digest of a variant, the key f"{EVALUATION_JOB_KIND}:{run.id}"
-- and the database's dialect
pub record EvaluationService : Type 0 where
  pub datasets : Dict DatasetManifest
  pub variants : Dict VariantConfig
  pub configuration_hash : VariantConfig → ℕ
  pub git_commit : Option ℕ
  pub image_digest : Option ℕ
  pub job_key : ℕ → ℕ
  pub dialect : Dialect

-- the fresh ids and the times of a creation
pub record Fresh : Type 0 where
  pub run_id : ℕ
  pub job_id : ℕ
  pub stamp : ℕ
  pub now : ℕ
  pub available_at : ℕ

abbrev Action : Type 0 → Type 0
Action A = Exec Platform Error A

abbrev with_evaluations :
    {A : Type 0} → Platform → Result Error A × Database → Result Error A × Platform
with_evaluations p (r, db) = (r, record p { evaluations = db })

abbrev pub with_jobs : {A : Type 0} → Platform → Result Error A × Table → Result Error A × Platform
with_jobs p (r, rows) = (r, record p { jobs = rows })

abbrev pub on_runs : {A : Type 0} → Session A → Action A
on_runs m p = with_evaluations p (m p.evaluations)

abbrev on_jobs : {A : Type 0} → Queue A → Action A
on_jobs m p = with_jobs p (m p.jobs)

-- EVALUATION_JOB_KIND, and the default of `max_attempts`
abbrev evaluation_job_kind : ℕ
evaluation_job_kind = 1

abbrev default_attempts : ℕ
default_attempts = 3

module _ (s : EvaluationService) where
  abbrev pub add_hash : ℕ → Option VariantConfig → Result Error (Dict ℕ) → Result Error (Dict ℕ)
  add_hash v none rest = err key_error
  add_hash v (some c) (err x) = err x
  add_hash v (some c) (ok hashes) = ok ((v, s.configuration_hash c) ∷ hashes)

  abbrev pub hashes_of : List ℕ → Result Error (Dict ℕ)
  hashes_of [] = ok []
  hashes_of (v ∷ variants) = add_hash v (lookup v s.variants) (hashes_of variants)

  abbrev pub resolve_in : EvalRunSpec → Option DatasetManifest → Result Error (Dict ℕ)
  resolve_in spec none = err key_error
  resolve_in spec (some manifest) =
      if not (spec.split == manifest.default_split)
      then err value_error
      else hashes_of spec.variants

  -- `_resolve_variant_hashes`
  pub resolve_variant_hashes : EvalRunSpec → Result Error (Dict ℕ)
  resolve_variant_hashes spec = resolve_in spec (lookup spec.dataset s.datasets)

  module _ (fresh : Fresh) where
    abbrev pub job_spec : JobSpec
    job_spec = record {
      kind = evaluation_job_kind;
      payload = fresh.run_id;
      max_attempts = default_attempts;
      idempotency_key = some (s.job_key fresh.run_id);
      available_at = fresh.available_at;
    }

    -- the job of the run, where one is wanted
    abbrev pub queue_job : Bool → EvalRunRow → Action EvalRunRow
    queue_job false run = pure run
    queue_job true run = on_jobs (enqueue s.dialect fresh.job_id fresh.stamp job_spec) >> pure run

    abbrev pub queue_run : EvalRunRow → Action EvalRunRow
    queue_run run = on_runs (set_state fresh.now run.id queued)

    abbrev create_with : EvalRunSpec → Bool → Dict ℕ → Action EvalRunRow
    create_with spec wanted hashes = transaction (
        on_runs (create fresh.run_id fresh.stamp spec hashes s.git_commit s.image_digest)
        >>= queue_run
        >>= queue_job wanted)

    abbrev pub create_resolved : EvalRunSpec → Bool → Result Error (Dict ℕ) → Action EvalRunRow
    create_resolved spec wanted (err x) = raise x
    create_resolved spec wanted (ok hashes) = create_with spec wanted hashes

    pub create_retrieval_evaluation : EvalRunSpec → Bool → Action EvalRunRow
    unfolding resolve_variant_hashes
    create_retrieval_evaluation spec wanted =
        create_resolved spec wanted (resolve_variant_hashes spec)

    -- `submit_retrieval_evaluation`, and `DatabaseEvaluationService.submit`
    pub submit_retrieval_evaluation : EvalRunSpec → Action EvalRunRow
    unfolding create_retrieval_evaluation
    submit_retrieval_evaluation spec = create_retrieval_evaluation spec true

-- `get_evaluation_run`
abbrev get_evaluation_run : ℕ → Action EvalRunRow
get_evaluation_run run_id = on_runs (load_run run_id)
