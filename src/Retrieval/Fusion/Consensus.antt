-- ===== src/Retrieval/Fusion/Consensus.antt =====
-- A document that every ranking places above another is fused above it
-- (src/ragops/retrieval/fusion.py).
use rag_eval_platform.Prelude.{
  ℕ, ◌+◌, ◌≤◌, ◌<◌, ◌≡◌, refl, sym, ap, ◌∙◌, subst, inl, inr, true, false, Option, none, some, List,
  [], ◌∷◌, arith, ◌==◌, is_some, if◌then◌else◌, Bool-cases, All, contains, Distinct, Result, ok,
  Error,
}
use rag_eval_platform.Retrieval.Fusion.Order.{fusion_lem}
use rag_eval_platform.Retrieval.{FloatOps, IsMonotone, StageHit}
use rag_eval_platform.Retrieval.Fusion.{
  reciprocal_rank_fusion, hit_ids, own_ranking, own_score, score_in,
}

-- the rank of a document, counting from the given one
abbrev position : ℕ → ℕ → List StageHit → Option ℕ
position rank d [] = none
position rank d (h ∷ hits) = if d == h.document_id then some rank else position (rank + 1) d hits

-- Where `b` is ranked, `a` is ranked no lower.
abbrev pub IsAbove : ℕ → ℕ → List StageHit → Type 0
IsAbove a b hits =
    (r : ℕ) → position 1 b hits ≡ some r → (q : ℕ) × (position 1 a hits ≡ some q) × (q ≤ r)

abbrev or_zero : FloatOps → Option ℕ → ℕ
or_zero ops none = ops.zero_score
or_zero ops (some s) = s

abbrev bumped : FloatOps → ℕ → Option ℕ → Option ℕ → Option ℕ
bumped ops k score none = score
bumped ops k score (some r) = some (ops.add (or_zero ops score) (ops.reciprocal (k + r)))

module _ (ops : FloatOps) (k : ℕ) (d : ℕ) where
  own_ranking-absent :
      (rank : ℕ) (hits : List StageHit) (score : Option ℕ)
      → contains d (hit_ids hits) ≡ false
      → own_ranking ops k d rank hits score ≡ score
  own_ranking-absent rank [] score h = refl
  own_ranking-absent rank (x ∷ hits) score h =
      ap (own_ranking ops k d (rank + 1) hits) (ground arith)
      ∙ own_ranking-absent (rank + 1) hits score (ground arith)

  own_ranking-position :
      (rank : ℕ) (hits : List StageHit) (score : Option ℕ)
      → Distinct (hit_ids hits)
      → own_ranking ops k d rank hits score ≡ bumped ops k score (position rank d hits)
  own_ranking-position rank [] score h = refl
  own_ranking-position rank (x ∷ hits) score h = elim (Bool-cases (d == x.document_id)) [
    | inl e ↦ rw e (
        own_ranking-absent (rank + 1) hits
          (some (
            ops.add (elim score [ none ↦ ops.zero_score | some s ↦ s ])
              (ops.reciprocal (k + rank))))
          (ground arith)
        ∙ start score)
    | inr e ↦ rw e (own_ranking-position (rank + 1) hits score h.1)
  ]
    where
      start :
          (score : Option ℕ)
          → some (
              ops.add
                (elim score [ none ↦ ops.zero_score | some s ↦ s ])
                (ops.reciprocal (k + rank)))
            ≡ some (ops.add (or_zero ops score) (ops.reciprocal (k + rank)))
      start none = refl
      start (some s) = refl

module _ (ops : FloatOps) (laws : IsMonotone ops) (k : ℕ) (a b : ℕ) where
  -- `b` has no score that `a` does not match
  abbrev Leads : Option ℕ → Option ℕ → Type 0
  Leads x y = (or_zero ops y ≤ or_zero ops x) × (is_some y ≡ true → is_some x ≡ true)

  lead_bumped :
      (x y p q : Option ℕ)
      → ((r : ℕ) → q ≡ some r → (n : ℕ) × (p ≡ some n) × (n ≤ r))
      → 0 < k
      → Leads x y
      → Leads (bumped ops k x p) (bumped ops k y q)
  lead_bumped x y none none above positive l = l
  lead_bumped x y (some n) none above positive l =
      (omega (arith, l.0, laws.add_grows (or_zero ops x) (k + n)), λ h. refl)
  lead_bumped x y none (some r) above positive l = ground (arith, above r refl)
  lead_bumped x y (some n) (some r) above positive l =
      let le : n ≤ r = ground (arith, above r refl) in
      (
        laws.add_mono _ _ _ _ l.0
            (laws.reciprocal_anti (k + n) (k + r) (omega arith) (omega arith)),
        λ h. refl,
      )

  lead :
      (rankings : List (List StageHit)) (x y : Option ℕ)
      → 0 < k
      → All (λ ranking. Distinct (hit_ids ranking) × IsAbove a b ranking) rankings
      → Leads x y
      → Leads (own_score ops k a rankings x) (own_score ops k b rankings y)
  lead [] x y positive agreed l = l
  lead (ranking ∷ rankings) x y positive agreed l =
      let (d, above) = agreed.0 in
      lead rankings (own_ranking ops k a 1 ranking x) (own_ranking ops k b 1 ranking y) positive
        agreed.1
        (rw (own_ranking-position ops k a 1 ranking x d, own_ranking-position ops k b 1 ranking y d)
          (lead_bumped x y (position 1 a ranking) (position 1 b ranking) above positive l))

  consensus_scores :
      (rankings : List (List StageHit)) (score : ℕ)
      → 0 < k
      → All (λ ranking. Distinct (hit_ids ranking) × IsAbove a b ranking) rankings
      → own_score ops k b rankings none ≡ some score
      → (best : ℕ) × (own_score ops k a rankings none ≡ some best) × (score ≤ best)
  consensus_scores rankings score positive agreed h = found (own_score ops k a rankings none) refl (
      subst (Leads (own_score ops k a rankings none)) h
        (lead rankings none none positive agreed (omega arith, λ e. e)))
    where
      found :
          (o : Option ℕ)
          → own_score ops k a rankings none ≡ o
          → Leads o (some score)
          → (best : ℕ) × (own_score ops k a rankings none ≡ some best) × (score ≤ best)
      found none e l = cc (l.1 refl)
      found (some best) e l = (best, e, l.0)

  -- Where no ranking repeats a document, and every ranking that holds `b` holds `a` and places it no
  -- lower, the fused list that holds `b` holds `a` with at least its score, whatever the rounding
  -- of the float operations.
  pub consensus :
      (rankings : List (List StageHit)) (fused : List StageHit) (score : ℕ)
      → All (λ ranking. Distinct (hit_ids ranking) × IsAbove a b ranking) rankings
      → reciprocal_rank_fusion ops rankings k ≡ ok fused
      → score_in b fused ≡ some score
      → (best : ℕ) × (score_in a fused ≡ some best) × (score ≤ best)
  consensus rankings fused score agreed e h = elim (fusion_lem ops rankings k) [
    | inl (z, raised) ↦ cc
    | inr (positive, (f, found, holds, sorted, scores)) ↦
        let same : f ≡ fused = ok_injective f fused (sym found ∙ e) in
        let (best, own, le) =
          consensus_scores rankings score positive agreed
            (sym (scores b) ∙ ap (score_in b) same ∙ h) in
        (best, sym (ap (score_in a) same) ∙ scores a ∙ own, le)
  ]
    where
      ok_injective :
          (x y : List StageHit) → ◌≡◌ {A = Result Error (List StageHit)} (ok x) (ok y) → x ≡ y
      ok_injective x y h = cc
