-- ===== src/Gate/Baseline/Recorded.antt =====
-- What `build_baseline` records of a run (src/ragops/evaluation/gate.py).
use rag_eval_platform.Prelude.{
  ℕ, ◌≡◌, refl, sym, ap, ◌∙◌, inl, inr, true, ◌&&◌, Option, none, some, List, [], ◌∷◌, arith, ◌==◌,
  ==_refl, opt_eq, if◌then◌else◌, Bool-cases, Distinct, ℤ, pos, negsuc,
}
use rag_eval_platform.Prelude.Dict.{
  Dict, lookup, lookup_or, insert, keys, lookup-insert, lookup-none_iff,
}
use rag_eval_platform.Gate.{
  MetricSummary, EvaluationReport, BaselineDocument, comparable, fingerprints_match, same_int,
  same_names, observed_mean, scores_of,
}
use rag_eval_platform.Gate.Baseline.{record_metric, record_metrics, captured}

recorded_one :
    (v m : ℕ) (s : MetricSummary) (d : Dict (Dict ℕ))
    → lookup m (lookup_or v [] (record_metric s d))
      ≡ (if s.variant == v && s.metric == m then some s.mean else lookup m (lookup_or v [] d))
recorded_one v m s d = elim (Bool-cases (v == s.variant)) [
  | inl k ↦
      let same : v ≡ s.variant = ground (arith, k) in
      let inner : Dict ℕ = insert s.metric s.mean (lookup_or s.variant [] d) in
      let found : lookup v (record_metric s d) ≡ some inner =
        lookup-insert v s.variant inner d ∙ rw k refl in
      ap (scores m) found
      ∙ lookup-insert m s.metric s.mean (lookup_or s.variant [] d)
      ∙ ap (λ (u : ℕ). if m == s.metric then some s.mean else lookup m (lookup_or u [] d))
          (sym same)
      ∙ ground (arith, k)
  | inr k ↦
      let inner : Dict ℕ = insert s.metric s.mean (lookup_or s.variant [] d) in
      let found : lookup v (record_metric s d) ≡ lookup v d =
        lookup-insert v s.variant inner d ∙ rw k refl in
      ap (scores m) found ∙ ground (arith, k)
]
  where
    scores : ℕ → Option (Dict ℕ) → Option ℕ
    scores m o = lookup m (elim o [ none ↦ [] | some w ↦ w ])

-- The scores that are recorded are the means that the gate observes.
recorded-observed :
    (v m : ℕ) (summaries : List MetricSummary) (d : Dict (Dict ℕ))
    → lookup m (lookup_or v [] (record_metrics summaries d))
      ≡ observed_mean v m summaries (lookup m (lookup_or v [] d))
unfolding record_metrics observed_mean
recorded-observed v m [] d = refl
recorded-observed v m (s ∷ summaries) d =
    recorded-observed v m summaries (record_metric s d)
    ∙ ap (observed_mean v m summaries) (recorded_one v m s d)

pub matches_within :
    (observed d : Dict ℕ)
    → Distinct (keys d)
    → ((k n : ℕ) → lookup k d ≡ some n → lookup k observed ≡ some n)
    → fingerprints_match observed d ≡ true
matches_within observed [] distinct sub = refl
matches_within observed (e ∷ d) distinct sub =
    let head : lookup e.0 observed ≡ some e.1 = sub e.0 e.1 (ground (arith, ==_refl e.0)) in
    rw (head, ==_refl e.1)
      (matches_within observed d distinct.1 (λ k n h. sub k n (elim (Bool-cases (k == e.0)) [
        | inl t ↦
            let same : k ≡ e.0 = ground (arith, t) in
            cc (h, ap (λ (j : ℕ). lookup j d) same ∙ lookup-none_iff e.0 d distinct.0)
        | inr t ↦ rw t h
      ])))

opt_eq_refl : (o : Option ℕ) → opt_eq o o ≡ true
opt_eq_refl none = refl
opt_eq_refl (some n) = ==_refl n

same_names_refl : (xs : List ℕ) → same_names xs xs ≡ true
same_names_refl [] = refl
same_names_refl (x ∷ xs) = rw (==_refl x) (same_names_refl xs)

same_int_refl : (n : ℤ) → same_int n n ≡ true
same_int_refl (pos n) = ==_refl n
same_int_refl (negsuc n) = ==_refl n

module _ (recorded_at : ℕ) (hashes : Dict ℕ) (report : EvaluationReport) where
  abbrev own : BaselineDocument
  own = captured recorded_at hashes report

  pub own-comparable : comparable own report.spec ≡ true
  unfolding captured comparable
  own-comparable =
      rw
        (
          ==_refl report.spec.dataset,
          ==_refl report.spec.split,
          opt_eq_refl report.spec.sample_size,
          same_int_refl report.spec.seed,
          opt_eq_refl report.spec.generation_sample_size,
          same_names_refl report.spec.generation_variants,
          opt_eq_refl report.spec.generator_profile,
          same_names_refl report.spec.judge_profiles,
          opt_eq_refl report.spec.generation_prompt_version,
          opt_eq_refl report.spec.judge_prompt_version,
        )
        (ground arith)

  -- What the run's own baseline records is what the run reports.
  pub own-observed : (v m : ℕ) → lookup m (scores_of own v) ≡ observed_mean v m report.metrics none
  unfolding captured
  own-observed v m = recorded-observed v m report.metrics []
