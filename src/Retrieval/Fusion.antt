-- ===== src/Retrieval/Fusion.antt =====
-- Reciprocal rank fusion: src/ragops/retrieval/fusion.py.
pub mod Order
pub mod Consensus
mod Tests
use rag_eval_platform.Prelude.{
  ℕ, ◌+◌, ◌≡◌, refl, ap, ◌∙◌, Bool, false, ◌||◌, Option, none, some, List, [], ◌∷◌, arith, leb,
  ◌==◌, if◌then◌else◌, contains, Distinct, names, Result, ok, err, Error, value_error,
}
use rag_eval_platform.Prelude.Dict.{
  Dict, lookup, lookup_or, insert, keys, lookup-insert, contains-keys-insert, Distinct-keys-insert,
}
use rag_eval_platform.Prelude.Sort.{sort}
use rag_eval_platform.Retrieval.{FloatOps, StageHit, ranks_before}

module _ (ops : FloatOps) (k : ℕ) where
  -- the inner loop, from the given rank on
  unfoldable add_ranking : ℕ → List StageHit → Dict ℕ → Dict ℕ
  add_ranking rank [] scores = scores
  add_ranking rank (hit ∷ hits) scores = add_ranking (rank + 1) hits (
      insert hit.document_id
        (ops.add (lookup_or hit.document_id ops.zero_score scores) (ops.reciprocal (k + rank)))
        scores)

  unfoldable pub add_rankings : List (List StageHit) → Dict ℕ → Dict ℕ
  unfolding add_ranking
  add_rankings [] scores = scores
  add_rankings (ranking ∷ rankings) scores = add_rankings rankings (add_ranking 1 ranking scores)

abbrev pub as_hits : Dict ℕ → List StageHit
as_hits [] = []
as_hits ((d, s) ∷ scores) = record { document_id = d; score = s } ∷ as_hits scores

unfoldable pub reciprocal_rank_fusion :
    FloatOps → List (List StageHit) → ℕ → Result Error (List StageHit)
unfolding add_rankings
reciprocal_rank_fusion ops rankings k =
    if leb k 0
    then err value_error
    else ok (sort ranks_before (as_hits (add_rankings ops k rankings [])))

abbrev pub hit_id : StageHit → ℕ
hit_id h = h.document_id

abbrev pub hit_ids : List StageHit → List ℕ
hit_ids hits = names hit_id hits

-- a document stands in some ranking
abbrev pub ranked_in : ℕ → List (List StageHit) → Bool
ranked_in d [] = false
ranked_in d (ranking ∷ rankings) = contains d (hit_ids ranking) || ranked_in d rankings

-- The score of one document alone, by its own ranks: what the fusion should give it.
module _ (ops : FloatOps) (k : ℕ) (d : ℕ) where
  abbrev pub own_ranking : ℕ → List StageHit → Option ℕ → Option ℕ
  own_ranking rank [] score = score
  own_ranking rank (hit ∷ hits) score = own_ranking (rank + 1) hits (
      if d == hit.document_id
      then some
          (ops.add (elim score [ none ↦ ops.zero_score | some s ↦ s ]) (ops.reciprocal (k + rank)))
      else score)

  abbrev pub own_score : List (List StageHit) → Option ℕ → Option ℕ
  own_score [] score = score
  own_score (ranking ∷ rankings) score = own_score rankings (own_ranking 1 ranking score)

-- the score of a document in a list of hits
abbrev pub score_in : ℕ → List StageHit → Option ℕ
score_in d [] = none
score_in d (h ∷ hits) = if d == h.document_id then some h.score else score_in d hits

pub keys-as_hits : (scores : Dict ℕ) → hit_ids (as_hits scores) ≡ keys scores
keys-as_hits [] = refl
keys-as_hits ((d, s) ∷ scores) = rw (keys-as_hits scores)

pub score_in-as_hits : (d : ℕ) (scores : Dict ℕ) → score_in d (as_hits scores) ≡ lookup d scores
score_in-as_hits d [] = refl
score_in-as_hits d ((j, s) ∷ scores) = ground (arith, score_in-as_hits d scores)

module _ (ops : FloatOps) (k : ℕ) where
  keys-add_ranking :
      (d rank : ℕ) (hits : List StageHit) (scores : Dict ℕ)
      → contains d (keys (add_ranking ops k rank hits scores))
        ≡ (contains d (keys scores) || contains d (hit_ids hits))
  unfolding add_ranking
  keys-add_ranking d rank [] scores = ground arith
  keys-add_ranking d rank (hit ∷ hits) scores =
      let s : ℕ =
        ops.add (lookup_or hit.document_id ops.zero_score scores) (ops.reciprocal (k + rank)) in
      keys-add_ranking d (rank + 1) hits (insert hit.document_id s scores)
      ∙ ground (arith, contains-keys-insert d hit.document_id s scores)

  Distinct-add_ranking :
      (rank : ℕ) (hits : List StageHit) (scores : Dict ℕ)
      → Distinct (keys scores)
      → Distinct (keys (add_ranking ops k rank hits scores))
  unfolding add_ranking
  Distinct-add_ranking rank [] scores h = h
  Distinct-add_ranking rank (hit ∷ hits) scores h =
      Distinct-add_ranking (rank + 1) hits _ (Distinct-keys-insert hit.document_id _ scores h)

  lookup-add_ranking :
      (d rank : ℕ) (hits : List StageHit) (scores : Dict ℕ)
      → lookup d (add_ranking ops k rank hits scores)
        ≡ own_ranking ops k d rank hits (lookup d scores)
  unfolding add_ranking
  lookup-add_ranking d rank [] scores = refl
  lookup-add_ranking d rank (hit ∷ hits) scores =
      let s : ℕ =
        ops.add (lookup_or hit.document_id ops.zero_score scores) (ops.reciprocal (k + rank)) in
      lookup-add_ranking d (rank + 1) hits (insert hit.document_id s scores)
      ∙ ap (own_ranking ops k d (rank + 1) hits)
          (ground (arith, lookup-insert d hit.document_id s scores))

  pub keys-add_rankings :
      (d : ℕ) (rankings : List (List StageHit)) (scores : Dict ℕ)
      → contains d (keys (add_rankings ops k rankings scores))
        ≡ (contains d (keys scores) || ranked_in d rankings)
  unfolding add_rankings
  keys-add_rankings d [] scores = ground arith
  keys-add_rankings d (ranking ∷ rankings) scores =
      keys-add_rankings d rankings (add_ranking ops k 1 ranking scores)
      ∙ ground (arith, keys-add_ranking d 1 ranking scores)

  pub Distinct-add_rankings :
      (rankings : List (List StageHit)) (scores : Dict ℕ)
      → Distinct (keys scores)
      → Distinct (keys (add_rankings ops k rankings scores))
  unfolding add_rankings
  Distinct-add_rankings [] scores h = h
  Distinct-add_rankings (ranking ∷ rankings) scores h =
      Distinct-add_rankings rankings (add_ranking ops k 1 ranking scores)
        (Distinct-add_ranking 1 ranking scores h)

  pub lookup-add_rankings :
      (d : ℕ) (rankings : List (List StageHit)) (scores : Dict ℕ)
      → lookup d (add_rankings ops k rankings scores) ≡ own_score ops k d rankings (lookup d scores)
  unfolding add_rankings
  lookup-add_rankings d [] scores = refl
  lookup-add_rankings d (ranking ∷ rankings) scores =
      lookup-add_rankings d rankings (add_ranking ops k 1 ranking scores)
      ∙ ap (own_score ops k d rankings) (lookup-add_ranking d 1 ranking scores)
