-- ===== src/Runner/Retrieving.antt =====
-- The retrieval stage of a run: `_evaluate_one` and its loops (src/ragops/evaluation/runner.py).
use rag_eval_platform.Prelude.{
  ℕ, Bool, not, ◌&&◌, Option, none, some, List, [], ◌∷◌, ◌==◌, if◌then◌else◌, any, names, pure,
  or_raise, ◌>>=◌, ◌>>◌, raise_if, value_error, key_error,
}
use rag_eval_platform.Prelude.Dict.{Dict, lookup, insert}
use rag_eval_platform.Runs.Store.{EvalRunRow, EvalQueryResultRow, pin_index_fingerprint}
use rag_eval_platform.Runs.Results.{add_result}
use rag_eval_platform.Retrieval.{SearchRequest, SearchResponse, RankedHit}
use rag_eval_platform.Metrics.{RetrievalMetricScores, compute_retrieval_metrics}
use rag_eval_platform.Runs.Datasets.{EvaluationQuery}
use rag_eval_platform.Runner.{
  EvaluationRunner, Task, in_transaction, ask, lift, get_run, unless_cancelled,
}

abbrev evaluation_retrieval_depth : ℕ
evaluation_retrieval_depth = 100

-- what the loops read of a run: its id, its specification, the hashes and the work that is done
pub record RunWork : Type 0 where
  pub run_id : ℕ
  pub dataset : ℕ
  pub variants : List ℕ
  pub hashes : Dict ℕ
  pub completed : List (ℕ × ℕ)

-- the keys of the retrieval scores
abbrev score_dict : RetrievalMetricScores → Dict ℕ
score_dict s =
    (0, s.ndcg_at_10) ∷ (1, s.recall_at_10) ∷ (2, s.recall_at_100) ∷ (3, s.mrr_at_10) ∷ []

abbrev pub retrieval_request : RunWork → EvaluationQuery → ℕ → SearchRequest
retrieval_request work query variant = record {
  query = query.text;
  dataset = work.dataset;
  variant = variant;
  k = evaluation_retrieval_depth;
}

abbrev pub check_hash : SearchResponse → ℕ → Task Unit
check_hash response expected = raise_if (not (response.variant_hash == expected)) value_error

-- pins the index of the first response, and holds the others to it
abbrev pub check_index : RunWork → ℕ → SearchResponse → Dict ℕ → Option ℕ → Task (Dict ℕ)
check_index work variant response pins none =
    in_transaction (λ now. pin_index_fingerprint work.run_id variant response.index_fingerprint)
    >> pure (insert variant response.index_fingerprint pins)
check_index work variant response pins (some expected) =
    raise_if (not (response.index_fingerprint == expected)) value_error >> pure pins

abbrev pub ranked_ids : SearchResponse → List ℕ
ranked_ids response = names (λ (h : RankedHit). h.document_id) response.hits

-- the row of a new result
abbrev pub new_result :
    RunWork → EvaluationQuery → ℕ → List ℕ → RetrievalMetricScores → EvalQueryResultRow
new_result work query variant ids scores = record {
  eval_run_id = work.run_id;
  query_id = query.id;
  variant = variant;
  ranked_document_ids = ids;
  generation_record = none;
  deterministic_scores = score_dict scores;
  judge_scores = [];
  judge_records = [];
  scifact_gold_label = none;
  token_cost_usd = 0;
}

abbrev pub save_result : RunWork → EvaluationQuery → ℕ → List ℕ → RetrievalMetricScores → Task Bool
save_result work query variant ids scores =
    in_transaction (λ now. add_result (new_result work query variant ids scores))

-- after the checks of a response
abbrev pub keep_response :
    EvaluationRunner → RunWork → EvaluationQuery → ℕ → SearchResponse → Dict ℕ → Task (Dict ℕ)
keep_response e work query variant response pins =
    lift (compute_retrieval_metrics e.ops (ranked_ids response) query.qrels)
    >>= save_result work query variant (ranked_ids response)
    >> pure pins

-- `expected_hashes[variant_name]`
abbrev pub expected_hash : ℕ → Dict ℕ → Task ℕ
expected_hash variant hashes = or_raise (lookup variant hashes) key_error

abbrev pub take_response :
    EvaluationRunner → RunWork → EvaluationQuery → ℕ → Dict ℕ → SearchResponse → Task (Dict ℕ)
take_response e work query variant pins response =
    expected_hash variant work.hashes
    >>= check_hash response
    >> check_index work variant response pins (lookup variant pins)
    >>= keep_response e work query variant response

-- `_evaluate_one`, which returns the pins with what it has pinned
abbrev pub evaluate_one : EvaluationRunner → RunWork → EvaluationQuery → ℕ → Dict ℕ → Task (Dict ℕ)
evaluate_one e work query variant pins =
    ask (λ now. e.search now (retrieval_request work query variant))
    >>= take_response e work query variant pins

abbrev pub is_done : ℕ → ℕ → List (ℕ × ℕ) → Bool
is_done query_id variant pairs = any (λ p. query_id == p.0 && variant == p.1) pairs

abbrev pub evaluate_missing :
    EvaluationRunner → RunWork → EvaluationQuery → ℕ → Dict ℕ → Task (Dict ℕ)
evaluate_missing e work query variant pins =
    if is_done query.id variant work.completed
    then pure pins
    else evaluate_one e work query variant pins

-- the inner loop
unfoldable pub evaluate_variants :
    EvaluationRunner → RunWork → EvaluationQuery → List ℕ → Dict ℕ → Task (Dict ℕ)
unfolding in_transaction ask
evaluate_variants e work query [] pins = pure pins
evaluate_variants e work query (v ∷ variants) pins =
    evaluate_missing e work query v pins >>= λ after. evaluate_variants e work query variants after

-- the outer loop, which returns the run early where it is cancelled
unfoldable pub evaluate_queries :
    EvaluationRunner → RunWork → List EvaluationQuery → Dict ℕ → Task (Option EvalRunRow)
unfolding evaluate_variants
evaluate_queries e work [] pins = pure none
evaluate_queries e work (q ∷ queries) pins = get_run work.run_id >>= λ (current : EvalRunRow).
    unless_cancelled current (
      evaluate_variants e work q work.variants pins >>= λ after.
      evaluate_queries e work queries after)
