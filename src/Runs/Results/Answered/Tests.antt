-- ===== src/Runs/Results/Answered/Tests.antt =====
-- Results and answers of a small run.
use rag_eval_platform.Prelude.{
  ℕ, ◌==◌, ◌&&◌, ◌≤◌, ◌<◌, ◌≡◌, ◌⊎◌, true, false, none, some, List, [], ◌∷◌, ok, err, pos,
  value_error, key_error,
}
use rag_eval_platform.Prelude.Text.{Text, codes}
use rag_eval_platform.Runs.{retrieving, EvalRunSpec}
use rag_eval_platform.Runs.Store.{Database, EvalRunRow, EvalQueryResultRow, find_run, update_run}
use rag_eval_platform.Runs.Results.{find_result, result_count, add_result, update_answer}
use rag_eval_platform.Generation.{AnswerResponse, high, outcome_ok, no_usage}
use rag_eval_platform.Runs.Results.Answered.{TakesAnswer, update_answer_twice, add_result_lem}

abbrev spec : EvalRunSpec
spec = record {
  dataset = 1;
  split = 2;
  variants = 5 ∷ 6 ∷ [];
  sample_size = none;
  generation_sample_size = none;
  generation_variants = [];
  seed = pos 42;
  generation_enabled = false;
  generator_profile = none;
  judge_profiles = [];
  generation_prompt_version = none;
  judge_prompt_version = none;
}

abbrev run_row : EvalRunRow
run_row = record {
  id = 3;
  spec = spec;
  state = retrieving;
  completed_queries = 0;
  total_queries = 2;
  git_commit = none;
  image_digest = none;
  index_fingerprints = (5, 77) ∷ [];
  created_at = 0;
  completed_at = none;
}

abbrev result : EvalQueryResultRow
result = record {
  eval_run_id = 3;
  query_id = 8;
  variant = 5;
  ranked_document_ids = 1 ∷ [];
  generation_record = none;
  deterministic_scores = [];
  judge_scores = [];
  judge_records = [];
  scifact_gold_label = none;
  token_cost_usd = 0;
}

abbrev answer_of : Text → AnswerResponse
answer_of text = record {
  answer = text;
  citations = [];
  abstained = false;
  confidence = high;
  verification_label = none;
  rationale_sentences = [];
  contexts = [];
  usage = no_usage;
  outcome = outcome_ok;
  trace_id = 1;
  provider = 1;
  model = 2;
  generator_configuration_hash = 3;
  prompt_version = 4;
  rendered_prompt_hash = 5;
  provider_request_id = none;
  cache_hit = false;
  citation_validation = none;
  error = none;
}

abbrev database : Database
database = record { runs = run_row ∷ []; run_variants = []; results = result ∷ [] }

update_answer_twice_example :
    ((find_result 3 5 8 database.results ≡ none)
      × (update_answer 3 8 5 (answer_of (codes "yes")) [] none database
          ≡ (err key_error, database)))
    ⊎ ((old : EvalQueryResultRow) × ((new : EvalQueryResultRow) × ((rows : List EvalQueryResultRow)
            × (find_result 3 5 8 database.results ≡ some old)
            × (update_answer 3 8 5 (answer_of (codes "yes")) [] none database
                ≡ (ok tt, record database { results = rows }))
            × (find_result 3 5 8 rows ≡ some new)
            × TakesAnswer (answer_of (codes "yes")) [] none old new
            × ((j u p : ℕ)
                → (j == 3 && (u == 5 && p == 8)) ≡ false
                → find_result j u p rows ≡ find_result j u p database.results)
            × (update_answer 3 8 5
                  (answer_of (codes "no"))
                  []
                  none
                  (record database { results = rows })
                ≡ (ok tt, record database { results = rows })))))
update_answer_twice_example =
    update_answer_twice 3 8 5 (answer_of (codes "yes")) (answer_of (codes "no")) [] [] none none
      database

abbrev other : EvalQueryResultRow
other = record result { query_id = 9 }

abbrev both : List EvalQueryResultRow
both = result ∷ other ∷ []

add_result_lem_example :
    ((old : EvalQueryResultRow) × (find_result 3 5 9 database.results ≡ some old)
      × (add_result other database ≡ (ok false, database)))
    ⊎ ((find_result 3 5 9 database.results ≡ none)
        × (((find_run 3 database.runs ≡ none) × ((add_result other database).0 ≡ err key_error))
            ⊎ ((run : EvalRunRow) × (find_run 3 database.runs ≡ some run)
                × (((run.total_queries < result_count 3 both)
                      × ((add_result other database).0 ≡ err value_error))
                    ⊎ ((result_count 3 both ≤ run.total_queries)
                        × (add_result other database ≡ (
                          ok true,
                          record database {
                            runs =
                                update_run run.id
                                  (record run { completed_queries = result_count 3 both })
                                  database.runs;
                            results = both;
                          },
                        )))))))
add_result_lem_example = add_result_lem other database
