-- ===== src/Metrics.antt =====
-- The retrieval metrics: src/ragops/evaluation/retrieval_metrics.py. A score is the number that codes
-- a float; the division and the discounted sum are parameters.
pub mod Recall
pub mod Answers
mod Tests
use rag_eval_platform.Prelude.{
  is_unique, ℕ, ◌+◌, Bool, not, ◌&&◌, List, [], ◌∷◌, ltb, ◌==◌, is_nil, if◌then◌else◌, length, take,
  filter, all, contains, Result, ok, err, ℤ, pos, pos_part, is_negative, is_positive, Error,
  value_error,
}
use rag_eval_platform.Prelude.Dict.{Dict, lookup_or}
use rag_eval_platform.Prelude.Sort.{sort}

-- 0.0, `m / n` on counts, the sum of `_discounted_cumulative_gain`, and the division of two sums
pub record ScoreOps : Type 0 where
  pub zero_score : ℕ
  pub ratio : ℕ → ℕ → ℕ
  pub discounted_cumulative_gain : List ℤ → ℕ
  pub divide : ℕ → ℕ → ℕ

pub record RetrievalMetricScores : Type 0 where
  pub ndcg_at_10 : ℕ
  pub recall_at_10 : ℕ
  pub recall_at_100 : ℕ
  pub mrr_at_10 : ℕ

-- the tests of `_validate_inputs`
abbrev pub inputs_are_valid : List ℕ → Dict ℤ → Bool
inputs_are_valid ranked qrels = is_unique ranked && all (λ e. not (is_negative e.1)) qrels

-- `qrels.get(document_id, 0)`
abbrev pub relevance_of : Dict ℤ → ℕ → ℤ
relevance_of qrels d = lookup_or d (pos 0) qrels

abbrev relevances : Dict ℤ → List ℕ → List ℤ
relevances qrels [] = []
relevances qrels (d ∷ ids) = relevance_of qrels d ∷ relevances qrels ids

-- the positive values of the judgments
abbrev positive_values : Dict ℤ → List ℤ
positive_values [] = []
positive_values (e ∷ qrels) =
    let rest = positive_values qrels in if is_positive e.1 then e.1 ∷ rest else rest

-- `sorted(..., reverse=True)` on positive numbers
abbrev greater : ℤ → ℤ → Bool
greater m n = ltb (pos_part n) (pos_part m)

pub ndcg_at : ScoreOps → ℕ → List ℕ → Dict ℤ → ℕ
ndcg_at ops cutoff ranked qrels =
    let observed : List ℤ = relevances qrels (take cutoff ranked) in
    let ideal : List ℤ = take cutoff (sort greater (positive_values qrels)) in
    let ideal_gain : ℕ = ops.discounted_cumulative_gain ideal in
    if ideal_gain == ops.zero_score
    then ops.zero_score
    else ops.divide (ops.discounted_cumulative_gain observed) ideal_gain

-- `relevant_document_ids`
unfoldable pub relevant : Dict ℤ → List ℕ
relevant [] = []
relevant (e ∷ qrels) = let rest = relevant qrels in if is_positive e.1 then e.0 ∷ rest else rest

pub retrieved_relevant : ℕ → List ℕ → Dict ℤ → List ℕ
unfolding relevant
retrieved_relevant cutoff ranked qrels =
    filter (λ d. contains d (take cutoff ranked)) (relevant qrels)

pub recall_at : ScoreOps → ℕ → List ℕ → Dict ℤ → ℕ
unfolding retrieved_relevant
recall_at ops cutoff ranked qrels =
    if is_nil (relevant qrels)
    then ops.zero_score
    else ops.ratio (length (retrieved_relevant cutoff ranked qrels)) (length (relevant qrels))

-- the loop of `_reciprocal_rank_at`, from the given rank on
pub reciprocal_rank_from : ScoreOps → Dict ℤ → ℕ → List ℕ → ℕ
reciprocal_rank_from ops qrels rank [] = ops.zero_score
reciprocal_rank_from ops qrels rank (d ∷ ids) =
    let rest = reciprocal_rank_from ops qrels (rank + 1) ids in
    if is_positive (relevance_of qrels d) then ops.ratio 1 rank else rest

pub reciprocal_rank_at : ScoreOps → ℕ → List ℕ → Dict ℤ → ℕ
unfolding reciprocal_rank_from
reciprocal_rank_at ops cutoff ranked qrels = reciprocal_rank_from ops qrels 1 (take cutoff ranked)

unfoldable pub compute_retrieval_metrics :
    ScoreOps → List ℕ → Dict ℤ → Result Error RetrievalMetricScores
unfolding ndcg_at recall_at reciprocal_rank_at
compute_retrieval_metrics ops ranked qrels =
    if not (inputs_are_valid ranked qrels)
    then err value_error
    else ok (record {
      ndcg_at_10 = ndcg_at ops 10 ranked qrels;
      recall_at_10 = recall_at ops 10 ranked qrels;
      recall_at_100 = recall_at ops 100 ranked qrels;
      mrr_at_10 = reciprocal_rank_at ops 10 ranked qrels;
    })
