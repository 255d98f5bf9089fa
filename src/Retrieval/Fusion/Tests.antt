-- ===== src/Retrieval/Fusion/Tests.antt =====
-- The fusion of two small rankings, with scores in millionths, and its theorems there.
use rag_eval_platform.Prelude.{
  ℕ, ◌+◌, ◌/◌, ◌≤◌, ◌<◌, ◌≡◌, refl, ◌⊎◌, none, some, List, [], ◌∷◌, arith, ok, err, value_error,
}
use rag_eval_platform.Prelude.Sort.{sort, IsSorted}
use rag_eval_platform.Retrieval.{FloatOps, IsMonotone, StageHit, ranks_before}
use rag_eval_platform.Retrieval.Fusion.{reciprocal_rank_fusion, hit_ids, own_score, score_in}
use rag_eval_platform.Retrieval.Fusion.Order.{HoldsRanked, fusion_lem}
use rag_eval_platform.Retrieval.Fusion.Consensus.{IsAbove, consensus}

abbrev millionths : FloatOps
millionths = record { zero_score = 0; add = λ a b. a + b; reciprocal = λ n. 1000000 / n }

reciprocal_anti_millionths : (m n : ℕ) → 0 < m → m ≤ n → 1000000 / n ≤ 1000000 / m
reciprocal_anti_millionths m n p h = grind arith

millionths-IsMonotone : IsMonotone millionths
millionths-IsMonotone = record {
  add_mono = λ a b c d h k. omega arith;
  reciprocal_anti = reciprocal_anti_millionths;
  add_grows = λ a n. omega arith;
}

abbrev hit : ℕ → StageHit
hit d = record { document_id = d; score = 5 }

abbrev rankings : List (List StageHit)
rankings = (hit 3 ∷ hit 1 ∷ hit 2 ∷ []) ∷ (hit 1 ∷ hit 3 ∷ []) ∷ []

fused : List StageHit
unfolding reciprocal_rank_fusion sort
fused = elim (reciprocal_rank_fusion millionths rankings 60) [ ok hits ↦ hits | err e ↦ [] ]

fused_ids : hit_ids fused ≡ 1 ∷ 3 ∷ 2 ∷ []
unfolding fused
fused_ids = refl

fusion_lem_example :
    ((◌≡◌ {A = ℕ} 60 0) × (reciprocal_rank_fusion millionths rankings 60 ≡ err value_error))
    ⊎ ((0 < 60)
        × ((out : List StageHit) × (reciprocal_rank_fusion millionths rankings 60 ≡ ok out)
            × HoldsRanked rankings out
            × IsSorted ranks_before out
            × ((d : ℕ) → score_in d out ≡ own_score millionths 60 d rankings none)))
fusion_lem_example = fusion_lem millionths rankings 60

first-IsAbove : IsAbove 1 2 (hit 3 ∷ hit 1 ∷ hit 2 ∷ [])
first-IsAbove r h = (2, refl, ground arith)

second-IsAbove : IsAbove 1 2 (hit 1 ∷ hit 3 ∷ [])
second-IsAbove r h = cc

fused_score : score_in 2 fused ≡ some 15873
unfolding fused
fused_score = refl

fused_result : reciprocal_rank_fusion millionths rankings 60 ≡ ok fused
unfolding fused reciprocal_rank_fusion
fused_result = refl

consensus_example : (best : ℕ) × (score_in 1 fused ≡ some best) × (15873 ≤ best)
consensus_example =
    consensus millionths millionths-IsMonotone 60 1 2 rankings fused 15873
      (((ground arith), first-IsAbove), ((ground arith, second-IsAbove), tt)) fused_result
      fused_score
