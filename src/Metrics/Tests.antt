-- ===== src/Metrics/Tests.antt =====
-- The metrics of a small ranking, with scores in thousandths.
use rag_eval_platform.Prelude.{
  ℕ, ◌+◌, ◌*◌, ◌/◌, ◌≡◌, refl, false, List, [], ◌∷◌, arith, All, ok, ℤ, pos, pos_part, is_positive,
}
use rag_eval_platform.Prelude.Dict.{Dict}
use rag_eval_platform.Prelude.Sort.{sort}
use rag_eval_platform.Metrics.{
  ScoreOps, RetrievalMetricScores, relevance_of, ndcg_at, relevant, retrieved_relevant, recall_at,
  reciprocal_rank_from, reciprocal_rank_at, compute_retrieval_metrics,
}
use rag_eval_platform.Metrics.Recall.{IsFirstRelevant, compute-recall_same, reciprocal_rank_at_lem}

abbrev total : List ℤ → ℕ
total [] = 0
total (r ∷ rs) = pos_part r + total rs

abbrev thousandths : ScoreOps
thousandths = record {
  zero_score = 0;
  ratio = λ m n. (m * 1000) / n;
  discounted_cumulative_gain = total;
  divide = λ m n. (m * 1000) / n;
}

abbrev judgments : Dict ℤ
judgments = (4, pos 0) ∷ (1, pos 2) ∷ (3, pos 1) ∷ (9, pos 1) ∷ []

abbrev scores : RetrievalMetricScores
scores = record { ndcg_at_10 = 750; recall_at_10 = 666; recall_at_100 = 666; mrr_at_10 = 500 }

before_scores : compute_retrieval_metrics thousandths (4 ∷ 1 ∷ 2 ∷ 3 ∷ []) judgments ≡ ok scores
unfolding compute_retrieval_metrics ndcg_at recall_at retrieved_relevant relevant reciprocal_rank_at
    reciprocal_rank_from sort
before_scores = refl

after_scores :
    compute_retrieval_metrics thousandths (1 ∷ 4 ∷ 2 ∷ 3 ∷ []) judgments
    ≡ ok (record scores { mrr_at_10 = 1000 })
unfolding compute_retrieval_metrics ndcg_at recall_at retrieved_relevant relevant reciprocal_rank_at
    reciprocal_rank_from sort
after_scores = refl

compute-recall_same_example : ◌≡◌ {A = ℕ} 666 666
compute-recall_same_example =
    compute-recall_same thousandths (4 ∷ 1 ∷ 2 ∷ 3 ∷ []) (1 ∷ 4 ∷ 2 ∷ 3 ∷ []) judgments scores
      (record scores { mrr_at_10 = 1000 }) (omega arith) refl (λ d. ground arith) before_scores
      after_scores

reciprocal_rank_at_lem_example :
    ((n : ℕ)
      → IsFirstRelevant judgments n (4 ∷ 1 ∷ [])
      → reciprocal_rank_at thousandths 2 (4 ∷ 1 ∷ 2 ∷ []) judgments ≡ 1000 / (1 + n))
    × (All (λ d. is_positive (relevance_of judgments d) ≡ false) (4 ∷ 1 ∷ [])
        → reciprocal_rank_at thousandths 2 (4 ∷ 1 ∷ 2 ∷ []) judgments ≡ 0)
reciprocal_rank_at_lem_example = reciprocal_rank_at_lem thousandths 2 (4 ∷ 1 ∷ 2 ∷ []) judgments
