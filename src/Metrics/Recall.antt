-- ===== src/Metrics/Recall.antt =====
-- What recall and the reciprocal rank measure (src/ragops/evaluation/retrieval_metrics.py).
use rag_eval_platform.Prelude.{
  ℕ, zero, suc, ◌+◌, ◌≤◌, ◌≡◌, refl, sym, ap, ◌∙◌, Bool, true, false, not, List, [], ◌∷◌, arith,
  is_nil, if◌then◌else◌, length, take, filter, All, contains, Result, ok, err, ℤ, is_positive,
  Error, value_error,
}
use rag_eval_platform.Prelude.Dict.{Dict}
use rag_eval_platform.Metrics.{
  ScoreOps, RetrievalMetricScores, inputs_are_valid, relevance_of, ndcg_at, relevant,
  retrieved_relevant, recall_at, reciprocal_rank_from, reciprocal_rank_at,
  compute_retrieval_metrics,
}

take-all : (n : ℕ) (xs : List ℕ) → length xs ≤ n → take n xs ≡ xs
take-all zero [] h = refl
take-all zero (x ∷ xs) h = absurd (none_below (length xs) h)
  where
    none_below : (n : ℕ) → suc n ≤ 0 → ⊥
    none_below n h = omega arith
take-all (suc n) [] h = refl
take-all (suc n) (x ∷ xs) h = ap (λ (t : List ℕ). x ∷ t) (take-all n xs (omega arith))

filter_same : (p q : ℕ → Bool) (xs : List ℕ) → ((a : ℕ) → p a ≡ q a) → filter p xs ≡ filter q xs
filter_same p q [] h = refl
filter_same p q (x ∷ xs) h = rw (h x, filter_same p q xs h) refl

-- Two rankings of the same documents, whole within the cutoff, have the same recall.
recall_at-same :
    (ops : ScoreOps) (cutoff : ℕ) (before after : List ℕ) (qrels : Dict ℤ)
    → length before ≤ cutoff
    → length after ≤ cutoff
    → ((d : ℕ) → contains d after ≡ contains d before)
    → recall_at ops cutoff after qrels ≡ recall_at ops cutoff before qrels
unfolding recall_at retrieved_relevant
recall_at-same ops cutoff before after qrels h k same =
    ap
      (λ (xs : List ℕ).
        if is_nil (relevant qrels)
        then ops.zero_score
        else ops.ratio (length xs) (length (relevant qrels)))
      (filter_same (λ d. contains d (take cutoff after)) (λ d. contains d (take cutoff before))
        (relevant qrels)
        (λ a.
          ap (contains a) (take-all cutoff after k)
          ∙ same a
          ∙ ap (contains a) (sym (take-all cutoff before h))))

abbrev recall_of : Result Error RetrievalMetricScores → ℕ
recall_of (ok s) = s.recall_at_100
recall_of (err e) = 0

scores-recall :
    (ops : ScoreOps) (ranked : List ℕ) (qrels : Dict ℤ) (s : RetrievalMetricScores)
    → compute_retrieval_metrics ops ranked qrels ≡ ok s
    → s.recall_at_100 ≡ recall_at ops 100 ranked qrels
unfolding compute_retrieval_metrics
scores-recall ops ranked qrels s h = go (inputs_are_valid ranked qrels) h
  where
    go :
        (valid : Bool)
        → (if not valid
            then err value_error
            else ok (record {
              ndcg_at_10 = ndcg_at ops 10 ranked qrels;
              recall_at_10 = recall_at ops 10 ranked qrels;
              recall_at_100 = recall_at ops 100 ranked qrels;
              mrr_at_10 = reciprocal_rank_at ops 10 ranked qrels;
            }))
          ≡ ok s
        → s.recall_at_100 ≡ recall_at ops 100 ranked qrels
    go false h = cc
    go true h = sym (ap recall_of h)

-- Reordering a ranking of at most 100 documents, as the rerank stage does, does not change its
-- recall at 100, by whatever arithmetic, where the metrics are computed for both orders.
pub compute-recall_same :
    (ops : ScoreOps) (before after : List ℕ) (qrels : Dict ℤ) (s t : RetrievalMetricScores)
    → length before ≤ 100
    → length after ≡ length before
    → ((d : ℕ) → contains d after ≡ contains d before)
    → compute_retrieval_metrics ops before qrels ≡ ok s
    → compute_retrieval_metrics ops after qrels ≡ ok t
    → t.recall_at_100 ≡ s.recall_at_100
compute-recall_same ops before after qrels s t h e same hs ht =
    scores-recall ops after qrels t ht
    ∙ recall_at-same ops 100 before after qrels h (omega (arith, e, h)) same
    ∙ sym (scores-recall ops before qrels s hs)

-- no document before the given one is relevant, and it is
abbrev pub IsFirstRelevant : Dict ℤ → ℕ → List ℕ → Type 0
IsFirstRelevant qrels n [] = ⊥
IsFirstRelevant qrels zero (d ∷ ids) = is_positive (relevance_of qrels d) ≡ true
IsFirstRelevant qrels (suc n) (d ∷ ids) =
    (is_positive (relevance_of qrels d) ≡ false) × IsFirstRelevant qrels n ids

rank_from :
    (ops : ScoreOps) (qrels : Dict ℤ) (rank n : ℕ) (ids : List ℕ)
    → IsFirstRelevant qrels n ids
    → reciprocal_rank_from ops qrels rank ids ≡ ops.ratio 1 (rank + n)
unfolding reciprocal_rank_from
rank_from ops qrels rank n [] h = absurd h
rank_from ops qrels rank zero (d ∷ ids) h = rw h (ap (ops.ratio 1) (omega arith))
rank_from ops qrels rank (suc n) (d ∷ ids) h =
    rw h.0 (rank_from ops qrels (rank + 1) n ids h.1 ∙ ap (ops.ratio 1) (omega arith))

no_rank_from :
    (ops : ScoreOps) (qrels : Dict ℤ) (rank : ℕ) (ids : List ℕ)
    → All (λ d. is_positive (relevance_of qrels d) ≡ false) ids
    → reciprocal_rank_from ops qrels rank ids ≡ ops.zero_score
unfolding reciprocal_rank_from
no_rank_from ops qrels rank [] h = refl
no_rank_from ops qrels rank (d ∷ ids) h = rw h.0 (no_rank_from ops qrels (rank + 1) ids h.1)

-- The reciprocal rank is `1 / r` where the first relevant document within the cutoff has rank `r`,
-- counted from 1, and 0 where none within the cutoff is relevant.
pub reciprocal_rank_at_lem :
    (ops : ScoreOps) (cutoff : ℕ) (ranked : List ℕ) (qrels : Dict ℤ)
    → ((n : ℕ)
        → IsFirstRelevant qrels n (take cutoff ranked)
        → reciprocal_rank_at ops cutoff ranked qrels ≡ ops.ratio 1 (1 + n))
      × (All (λ d. is_positive (relevance_of qrels d) ≡ false) (take cutoff ranked)
          → reciprocal_rank_at ops cutoff ranked qrels ≡ ops.zero_score)
unfolding reciprocal_rank_at
reciprocal_rank_at_lem ops cutoff ranked qrels = (
  λ n h. rank_from ops qrels 1 n (take cutoff ranked) h,
  λ h. no_rank_from ops qrels 1 (take cutoff ranked) h,
)
