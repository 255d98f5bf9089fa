-- ===== src/Runs/Store/Pins/Tests.antt =====
-- A run with a pinned index, and what is done to it.
use rag_eval_platform.Prelude.{refl, false, none, List, [], ◌∷◌, pos}
use rag_eval_platform.Runs.{retrieving, scoring, completed, EvalRunSpec}
use rag_eval_platform.Runs.Store.{Database, EvalRunRow, EvalQueryResultRow}
use rag_eval_platform.Runs.Store.Pins.{RunOp, pin_op, state_op, progress_op, result_op}
use rag_eval_platform.Runs.Store.Pinned.{IsPinned}

abbrev spec : EvalRunSpec
spec = record {
  dataset = 1;
  split = 2;
  variants = 5 ∷ 6 ∷ [];
  sample_size = none;
  generation_sample_size = none;
  generation_variants = [];
  seed = pos 42;
  generation_enabled = false;
  generator_profile = none;
  judge_profiles = [];
  generation_prompt_version = none;
  judge_prompt_version = none;
}

abbrev run_row : EvalRunRow
run_row = record {
  id = 3;
  spec = spec;
  state = retrieving;
  completed_queries = 0;
  total_queries = 2;
  git_commit = none;
  image_digest = none;
  index_fingerprints = (5, 77) ∷ [];
  created_at = 0;
  completed_at = none;
}

abbrev result : EvalQueryResultRow
result = record {
  eval_run_id = 3;
  query_id = 8;
  variant = 5;
  ranked_document_ids = 1 ∷ [];
  generation_record = none;
  deterministic_scores = [];
  judge_scores = [];
  judge_records = [];
  scifact_gold_label = none;
  token_cost_usd = 0;
}

abbrev database : Database
database = record { runs = run_row ∷ []; run_variants = []; results = [] }

abbrev ops : List RunOp
ops =
    pin_op 3 5 78
    ∷ pin_op 3 6 79
    ∷ result_op result
    ∷ progress_op 3 (pos 2) (pos 2)
    ∷ state_op 9 3 scoring
    ∷ state_op 9 3 completed
    ∷ []

pinned : IsPinned 3 5 77 database
pinned = (run_row, refl, refl)
