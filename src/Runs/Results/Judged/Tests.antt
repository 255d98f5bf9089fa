-- ===== src/Runs/Results/Judged/Tests.antt =====
-- Verdicts of two profiles on one result.
use rag_eval_platform.Prelude.{ℕ, ◌+◌, false, none, [], ◌∷◌, pos}
use rag_eval_platform.Prelude.Dict.{Dict}
use rag_eval_platform.Runs.{retrieving, EvalRunSpec}
use rag_eval_platform.Runs.Store.{JudgeVerdict, Database, EvalRunRow, EvalQueryResultRow}
use rag_eval_platform.Generation.{no_usage}

abbrev spec : EvalRunSpec
spec = record {
  dataset = 1;
  split = 2;
  variants = 5 ∷ 6 ∷ [];
  sample_size = none;
  generation_sample_size = none;
  generation_variants = [];
  seed = pos 42;
  generation_enabled = false;
  generator_profile = none;
  judge_profiles = [];
  generation_prompt_version = none;
  judge_prompt_version = none;
}

abbrev run_row : EvalRunRow
run_row = record {
  id = 3;
  spec = spec;
  state = retrieving;
  completed_queries = 0;
  total_queries = 2;
  git_commit = none;
  image_digest = none;
  index_fingerprints = (5, 77) ∷ [];
  created_at = 0;
  completed_at = none;
}

abbrev result : EvalQueryResultRow
result = record {
  eval_run_id = 3;
  query_id = 8;
  variant = 5;
  ranked_document_ids = 1 ∷ [];
  generation_record = none;
  deterministic_scores = [];
  judge_scores = [];
  judge_records = [];
  scifact_gold_label = none;
  token_cost_usd = 0;
}

abbrev database : Database
database = record { runs = run_row ∷ []; run_variants = []; results = result ∷ [] }

abbrev verdict : ℕ → ℕ → JudgeVerdict
verdict score price = record {
  faithfulness = score;
  relevance = score + 1;
  rationale = 1;
  judge_model = 2;
  usage = record no_usage { cost_usd = price };
}

abbrev verdicts : Dict JudgeVerdict
verdicts = (1, verdict 6 100) ∷ (2, verdict 7 200) ∷ []
