-- ===== src/Retrieval/Fusion/Order.antt =====
-- What the fusion returns (src/ragops/retrieval/fusion.py).
use rag_eval_platform.Prelude.{
  ℕ, zero, suc, ◌<◌, ◌≡◌, refl, ap, ◌∙◌, ◌⊎◌, inl, inr, true, false, none, List, [], ◌∷◌, arith,
  Bool-cases, contains, Distinct, ok, err, value_error,
}
use rag_eval_platform.Prelude.Dict.{Dict}
use rag_eval_platform.Prelude.Sort.{
  sort, insert_sorted, IsSorted, sort-IsSorted, contains-sort, Distinct-sort,
}
use rag_eval_platform.Retrieval.{FloatOps, StageHit, ranks_before}
use rag_eval_platform.Retrieval.Fusion.{
  add_rankings, as_hits, reciprocal_rank_fusion, hit_id, hit_ids, ranked_in, own_score, score_in,
  keys-as_hits, score_in-as_hits, keys-add_rankings, Distinct-add_rankings, lookup-add_rankings,
}

ranks_before_asymm : (a b : StageHit) → ranks_before b a ≡ true → ranks_before a b ≡ false
ranks_before_asymm a b h = ground arith

ranks_before_weak :
    (a b c : StageHit)
    → ranks_before b a ≡ false
    → ranks_before c b ≡ false
    → ranks_before c a ≡ false
ranks_before_weak a b c h k = ground arith

score_in-none :
    (d : ℕ) (hits : List StageHit) → contains d (hit_ids hits) ≡ false → score_in d hits ≡ none
score_in-none d [] h = refl
score_in-none d (x ∷ hits) h = ground (arith, score_in-none d hits)

score_in-insert_sorted :
    (d : ℕ) (x : StageHit) (hits : List StageHit)
    → contains x.document_id (hit_ids hits) ≡ false
    → score_in d (insert_sorted ranks_before x hits) ≡ score_in d (x ∷ hits)
unfolding insert_sorted
score_in-insert_sorted d x [] h = refl
score_in-insert_sorted d x (y ∷ hits) h = elim (Bool-cases (ranks_before y x)) [
  | inl e ↦ rw e (ground (arith, score_in-insert_sorted d x hits))
  | inr e ↦ rw e refl
]

score_in-sort :
    (d : ℕ) (hits : List StageHit)
    → Distinct (hit_ids hits)
    → score_in d (sort ranks_before hits) ≡ score_in d hits
unfolding sort
score_in-sort d [] h = refl
score_in-sort d (x ∷ hits) h =
    score_in-insert_sorted d x (sort ranks_before hits)
      (contains-sort ranks_before hit_id x.document_id hits ∙ h.0)
    ∙ ground (arith, score_in-sort d hits h.1)

-- The fused list holds each document that some ranking holds, once.
abbrev pub HoldsRanked : List (List StageHit) → List StageHit → Type 0
HoldsRanked rankings fused =
    Distinct (hit_ids fused) × ((d : ℕ) → contains d (hit_ids fused) ≡ ranked_in d rankings)

-- With a positive `k` the fusion succeeds. Its result holds each document that some ranking holds,
-- once; its score is the sum, in the order of the rankings, of `1 / (k + rank)` over the document's
-- own ranks; and the list is sorted, higher scores first and equal scores by the document id. With
-- `k` zero it raises.
pub fusion_lem :
    (ops : FloatOps) (rankings : List (List StageHit)) (k : ℕ)
    → ((k ≡ 0) × (reciprocal_rank_fusion ops rankings k ≡ err value_error))
      ⊎ ((0 < k)
          × ((fused : List StageHit) × (reciprocal_rank_fusion ops rankings k ≡ ok fused)
              × HoldsRanked rankings fused
              × IsSorted ranks_before fused
              × ((d : ℕ) → score_in d fused ≡ own_score ops k d rankings none)))
unfolding reciprocal_rank_fusion
fusion_lem ops rankings zero = inl (refl, refl)
fusion_lem ops rankings (suc k) =
    let scores : Dict ℕ = add_rankings ops (suc k) rankings [] in
    let d : Distinct (hit_ids (as_hits scores)) =
      rw (keys-as_hits scores) (Distinct-add_rankings ops (suc k) rankings [] tt) in
    inr (
      omega arith,
      (
        sort ranks_before (as_hits scores),
        ground arith,
        (
          Distinct-sort ranks_before hit_id (as_hits scores) d,
          λ i.
              contains-sort ranks_before hit_id i (as_hits scores)
              ∙ ap (contains i) (keys-as_hits scores)
              ∙ keys-add_rankings ops (suc k) i rankings [],
        ),
        sort-IsSorted ranks_before ranks_before_asymm ranks_before_weak (as_hits scores),
        λ i.
            score_in-sort i (as_hits scores) d
            ∙ score_in-as_hits i scores
            ∙ lookup-add_rankings ops (suc k) i rankings [],
      ),
    )
