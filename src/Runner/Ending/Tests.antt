-- ===== src/Runner/Ending/Tests.antt =====
-- How a run ends: instances, on a run of two queries with a generator and a judge.
use rag_eval_platform.Prelude.{
  ◌-◌, ◌*◌, ◌/◌, ◌≡◌, refl, ◌⊎◌, Bool, true, false, ◌||◌, none, some, [], ◌∷◌, arith, ltb, length,
  Result, ok, err, pos, Error, value_error,
}
use rag_eval_platform.Prelude.Sort.{sort}
use rag_eval_platform.Runs.{
  created, queued, completed, same_state, state_in, finished_states, ensure_state_transition,
  EvalRunSpec,
}
use rag_eval_platform.Runs.Store.{
  JudgeVerdict, EvalRunRow, find_run, create, pin_index_fingerprint, set_state, set_progress,
}
use rag_eval_platform.Runs.Results.{
  result_count, add_result, update_answer, with_verdicts, update_judges,
}
use rag_eval_platform.Generation.{abstained, AnswerResponse}
use rag_eval_platform.Retrieval.{VariantConfig, SearchResponse, RankedHit}
use rag_eval_platform.Metrics.{compute_retrieval_metrics}
use rag_eval_platform.Metrics.Answers.{compute_answer_metrics}
use rag_eval_platform.Runs.Datasets.{Tables, load_queries, load_results}
use rag_eval_platform.Runs.Store.Pins.{run}
use rag_eval_platform.Runner.{JudgeRequest, EvaluationRunner, World, wait}
use rag_eval_platform.Runner.Selection.{select_evaluation_queries}
use rag_eval_platform.Runner.Retrieving.{evaluate_variants}
use rag_eval_platform.Runner.Answering.{collect_verdicts}
use rag_eval_platform.Runner.Running.{unavailable, run_evaluation}
use rag_eval_platform.Runner.Whole.{Whole}
use rag_eval_platform.Generation.{low, no_usage}
use rag_eval_platform.Runs.Store.Pins.{create_op}
use rag_eval_platform.Runner.Failing.{Stopped}
use rag_eval_platform.Runner.Ending.{run_evaluation_ends, completed-Whole}

abbrev hit : RankedHit
hit = record { document_id = 31; title = 1; body = 1; rank = 1; score = 900; stage_scores = [] }

abbrev response : SearchResponse
response = record {
  hits = hit ∷ [];
  timings = [];
  trace_id = 1;
  variant_hash = 60;
  index_fingerprint = 77;
}

abbrev answer : AnswerResponse
answer = record {
  answer = 97 ∷ [];
  citations = [];
  abstained = true;
  confidence = low;
  verification_label = none;
  rationale_sentences = [];
  contexts = [];
  usage = no_usage;
  outcome = abstained;
  trace_id = 1;
  provider = 1;
  model = 1;
  generator_configuration_hash = 1;
  prompt_version = 4;
  rendered_prompt_hash = 1;
  provider_request_id = none;
  cache_hit = false;
  citation_validation = none;
  error = none;
}

abbrev judge_request : JudgeRequest
judge_request = record {
  query = 1;
  answer = 97 ∷ [];
  abstained = true;
  citations = [];
  contexts = [];
  system_prompt = 97 ∷ [];
  user_prompt = 97 ∷ [];
  prompt_version = 4;
  trace_id = 1;
}

abbrev verdict : JudgeVerdict
verdict = record {
  faithfulness = 5;
  relevance = 4;
  rationale = 1;
  judge_model = 1;
  usage = no_usage;
}

abbrev variant : VariantConfig
variant = record { name = 6; sparse = none; dense = none; fusion = none; rerank = none }

abbrev tables : Tables
tables = record {
  datasets = record { id = 50; name = 5; version = 1; split = 3 } ∷ [];
  queries =
      record { id = 21; dataset_id = 50; external_id = 12; text = 1; query_metadata = [] }
      ∷ record { id = 20; dataset_id = 50; external_id = 11; text = 2; query_metadata = [] }
      ∷ [];
  documents = record { id = 41; external_id = 31 } ∷ [];
  qrels = record { query_id = 20; document_id = 41; relevance = pos 1 } ∷ [];
}

abbrev runner : EvaluationRunner
runner = record {
  search = λ now request. ok response;
  datasets = (5, record { version = 1; default_split = 3 }) ∷ [];
  variants = (6, variant) ∷ [];
  configuration_hash = λ v. 60;
  answer_service = some (λ now request. ok answer);
  judge_renderer = some (λ query a. judge_request);
  judges = (9, λ now request. ok verdict) ∷ [];
  tables = tables;
  collates = ltb;
  text_lt = ltb;
  digest = λ seed q. 100 - q;
  ops = record {
    zero_score = 0;
    ratio = λ m n. m * 1000 / n;
    discounted_cumulative_gain = λ gains. length gains;
    divide = λ m n. m * 1000 / n;
  };
}

abbrev spec : EvalRunSpec
spec = record {
  dataset = 5;
  split = 3;
  variants = 6 ∷ [];
  sample_size = some 2;
  generation_sample_size = some 1;
  generation_variants = [];
  seed = pos 0;
  generation_enabled = true;
  generator_profile = some 1;
  judge_profiles = 9 ∷ [];
  generation_prompt_version = some 4;
  judge_prompt_version = some 4;
}

abbrev row : EvalRunRow
row = record {
  id = 7;
  spec = spec;
  state = queued;
  completed_queries = 0;
  total_queries = 0;
  git_commit = none;
  image_digest = none;
  index_fingerprints = [];
  created_at = 1;
  completed_at = none;
}

-- another process creates a run meanwhile
abbrev world : World
world = record {
  db = record {
    runs = row ∷ [];
    run_variants = record { eval_run_id = 7; name = 6; configuration_hash = 60 } ∷ [];
    results = [];
  };
  now = 100;
  turns =
      record { others = []; now = 200 }
      ∷ record { others = create_op 8 1 spec ((6, 60) ∷ []) none none ∷ []; now = 300 }
      ∷ [];
}

abbrev row_of : Result Error EvalRunRow → EvalRunRow
row_of (ok r) = r
row_of (err x) = row

outcome : Result Error EvalRunRow × World
outcome = run_evaluation runner 7 world

abbrev is_returned : Result Error EvalRunRow → Bool
is_returned (ok r) = true
is_returned (err x) = false

returned_as :
    (out : Result Error EvalRunRow × World)
    → is_returned out.0 ≡ true
    → out ≡ (ok (row_of out.0), out.1)
returned_as (ok r, w) h = refl
returned_as (err x, w) h = cc

outcome_returned : is_returned outcome.0 ≡ true
unfolding outcome run_evaluation run ensure_state_transition set_state set_progress create
    add_result update_answer update_judges pin_index_fingerprint with_verdicts load_queries
    load_results select_evaluation_queries compute_retrieval_metrics compute_answer_metrics
    collect_verdicts sort result_count evaluate_variants
outcome_returned = refl

outcome_state : (row_of outcome.0).state ≡ completed
unfolding outcome run_evaluation run ensure_state_transition set_state set_progress create
    add_result update_answer update_judges pin_index_fingerprint with_verdicts load_queries
    load_results select_evaluation_queries compute_retrieval_metrics compute_answer_metrics
    collect_verdicts sort result_count evaluate_variants
outcome_state = refl

found : find_run 7 (wait world).db.runs ≡ some row
unfolding run
found = refl

completed-Whole_example : Whole runner 7 spec outcome.1.db
unfolding outcome
completed-Whole_example =
    completed-Whole runner 7 world row found (omega arith) (omega arith) (row_of outcome.0)
      outcome.1 (returned_as outcome outcome_returned) outcome_state

run_evaluation_ends_example :
    ((state_in row.state finished_states ≡ true)
      × (run_evaluation runner 7 world ≡ (ok row, wait world)))
    ⊎ (((state_in row.state finished_states ≡ false)
          × ((same_state row.state created || unavailable runner row.spec) ≡ true)
          × (run_evaluation runner 7 world ≡ (err value_error, wait world)))
        ⊎ (((r' : EvalRunRow) × (w' : World) × (run_evaluation runner 7 world ≡ (ok r', w'))
              × (state_in r'.state finished_states ≡ true)
              × ((s : EvalRunRow) × (find_run 7 w'.db.runs ≡ some s) × (s.state ≡ r'.state)))
            ⊎ ((x : Error) × (w' : World) × (run_evaluation runner 7 world ≡ (err x, w'))
                × Stopped 7 w'.db)))
run_evaluation_ends_example = run_evaluation_ends runner 7 world row found
