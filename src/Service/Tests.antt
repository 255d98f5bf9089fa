-- ===== src/Service/Tests.antt =====
-- The creation and submission of evaluations on a small database.
use rag_eval_platform.Prelude.{
  ◌+◌, ◌≡◌, refl, ◌⊎◌, false, none, some, [], ◌∷◌, ok, err, pos, Error, runtime_error,
}
use rag_eval_platform.Prelude.Dict.{lookup}
use rag_eval_platform.Runs.{created, queued, ensure_state_transition, EvalRunSpec}
use rag_eval_platform.Runs.Store.{EvalRunRow, find_run, create, get_variant_hashes, set_state}
use rag_eval_platform.Queue.{enqueue}
use rag_eval_platform.Queue.{postgresql, other_dialect, JobRow, new_row, enqueue_key}
use rag_eval_platform.Queue.Submit.{is_supported}
use rag_eval_platform.Service.{
  Platform, EvaluationService, Fresh, job_spec, resolve_variant_hashes, submit_retrieval_evaluation,
  create_retrieval_evaluation,
}
use rag_eval_platform.Service.Hashes.{get_variant_hashes-create}
use rag_eval_platform.Service.Creation.{JobIn, submit_lem}

abbrev spec : EvalRunSpec
spec = record {
  dataset = 5;
  split = 3;
  variants = 6 ∷ [];
  sample_size = none;
  generation_sample_size = none;
  generation_variants = [];
  seed = pos 0;
  generation_enabled = false;
  generator_profile = none;
  judge_profiles = [];
  generation_prompt_version = none;
  judge_prompt_version = none;
}

abbrev service : EvaluationService
service = record {
  datasets = (5, record { version = 1; default_split = 3 }) ∷ [];
  variants =
      (6, record { name = 6; sparse = none; dense = none; fusion = none; rerank = none }) ∷ [];
  configuration_hash = λ v. v.name + 60;
  git_commit = none;
  image_digest = none;
  job_key = λ n. n + 100;
  dialect = postgresql;
}

abbrev fresh : Fresh
fresh = record { run_id = 7; job_id = 1; stamp = 10; now = 11; available_at = 12 }

abbrev platform : Platform
platform = record { evaluations = record { runs = []; run_variants = []; results = [] }; jobs = [] }

abbrev created_row : EvalRunRow
created_row = record {
  id = 7;
  spec = spec;
  state = created;
  completed_queries = 0;
  total_queries = 0;
  git_commit = none;
  image_digest = none;
  index_fingerprints = [];
  created_at = 10;
  completed_at = none;
}

get_variant_hashes-create_example :
    lookup 6 (
      get_variant_hashes 7
        (create 7 10 spec ((6, 66) ∷ []) none none platform.evaluations).1.run_variants)
    ≡ some 66
unfolding create
get_variant_hashes-create_example =
    get_variant_hashes-create 7 10 spec ((6, 66) ∷ []) none none platform.evaluations
      (create 7 10 spec ((6, 66) ∷ []) none none platform.evaluations).1 created_row refl refl 6
      refl

abbrev queued_row : EvalRunRow
queued_row = record created_row { state = queued }

abbrev submitted : Platform
submitted = record {
  evaluations = record {
    runs = queued_row ∷ [];
    run_variants = (create 7 10 spec ((6, 66) ∷ []) none none platform.evaluations).1.run_variants;
    results = [];
  };
  jobs = new_row 1 10 (job_spec service fresh) ∷ [];
}

-- a run is submitted
submits : submit_retrieval_evaluation service fresh spec platform ≡ (ok queued_row, submitted)
unfolding submit_retrieval_evaluation create set_state ensure_state_transition enqueue enqueue_key
submits = refl

-- on a database that the queue does not support, the run is rolled back
rolled_back :
    submit_retrieval_evaluation (record service { dialect = other_dialect }) fresh spec platform
    ≡ (err runtime_error, platform)
unfolding submit_retrieval_evaluation create set_state ensure_state_transition enqueue enqueue_key
rolled_back = refl

-- without a job, the run is created all the same
without_job :
    (create_retrieval_evaluation
      (record service { dialect = other_dialect })
      fresh
      spec
      false
      platform).0
    ≡ ok queued_row
unfolding create_retrieval_evaluation create set_state ensure_state_transition
without_job = refl

submit_lem_example :
    ((x : Error) × (submit_retrieval_evaluation service fresh spec platform ≡ (err x, platform))
      × ((resolve_variant_hashes service spec ≡ err x) ⊎ (is_supported service.dialect ≡ false)))
    ⊎ ((run : EvalRunRow) × (p' : Platform) × (submit_retrieval_evaluation service fresh spec
            platform
          ≡ (ok run, p'))
        × (find_run 7 p'.evaluations.runs ≡ some run)
        × (run.state ≡ queued)
        × (run.spec ≡ spec)
        × ((job : JobRow) × JobIn service fresh spec platform refl p'.jobs job))
submit_lem_example = submit_lem service fresh spec platform refl
