-- ===== src/Gate/Baseline/Own.antt =====
-- A run against the baseline that it recorded itself (src/ragops/evaluation/gate.py).
use rag_eval_platform.Prelude.{
  ℕ, ◌≡◌, refl, sym, ap, ◌∙◌, inl, inr, Bool, true, false, not, ◌||◌, Option, none, some, List, [],
  ◌∷◌, arith, is_some, is_nil, if◌then◌else◌, Bool-cases, contains, Distinct, Result, ok, err,
  Error, value_error, subst,
}
use rag_eval_platform.Prelude.Dict.{Dict, lookup, lookup_or, keys, lookup-found}
use rag_eval_platform.Gate.{
  EvaluationReport, BaselineDocument, GateMetricResult, GateResult, observed_mean, sorted,
  scores_of, gated_pairs, gate_metric, gate_metrics, gate_result, evaluate_gate,
}
use rag_eval_platform.Gate.Pairs.{
  some_pair, some_pair-gated_pairs, contains-sorted, found_in-gated_pairs,
}
use rag_eval_platform.Gate.Verdict.{evaluate_gate-failed}
use rag_eval_platform.Gate.Baseline.{baseline_is_valid, captured, build_baseline}
use rag_eval_platform.Gate.Baseline.Recorded.{matches_within, own-comparable, own-observed}

module _ (breaches : ℕ → ℕ → ℕ → Bool) (recorded_at : ℕ) (hashes : Dict ℕ)
    (report : EvaluationReport) (thresholds : Dict ℕ) where
  abbrev lacks_mean : ℕ → ℕ → Bool
  lacks_mean v m = not (is_some (observed_mean v m report.metrics none))

  abbrev has_tolerance : ℕ → ℕ → Bool
  has_tolerance v m = is_some (lookup m thresholds)

  abbrev the_baseline : BaselineDocument
  the_baseline = captured recorded_at hashes report

  -- Over pairs that are all reported, the loop returns, and it returns something where a pair has a
  -- tolerance.
  gate_metrics-returns :
      (pairs : List (ℕ × ℕ))
      → some_pair lacks_mean pairs ≡ false
      → (results : List GateMetricResult) × (gate_metrics breaches report the_baseline thresholds
            pairs
          ≡ ok results)
        × ((some_pair has_tolerance pairs ≡ true) → is_nil results ≡ false)
  unfolding gate_metrics some_pair
  gate_metrics-returns [] h = ([], refl, λ k. cc (k))
  gate_metrics-returns ((v, m) ∷ pairs) h =
      go (lookup m thresholds) (observed_mean v m report.metrics none)
        (gate_metrics breaches report the_baseline thresholds pairs) (ground arith)
        (gate_metrics-returns pairs (ground arith))
    where
      go :
          (t o : Option ℕ) (rest : Result Error (List GateMetricResult))
          → is_some o ≡ true
          → ((results : List GateMetricResult) × (rest ≡ ok results)
              × ((some_pair has_tolerance pairs ≡ true) → is_nil results ≡ false))
          → (results : List GateMetricResult) × (gate_metric breaches report the_baseline thresholds
                v m t o rest
              ≡ ok results)
            × (((is_some t || some_pair has_tolerance pairs) ≡ true) → is_nil results ≡ false)
      go none o rest k ih = ih
      go (some t) none rest k ih = cc
      go (some t) (some o) (err x) k (rs, e, f) = cc
      go (some t) (some o) (ok found) k (rs, e, f) = (
        record {
          variant = v;
          metric = m;
          baseline = lookup_or m 0 (scores_of the_baseline v);
          observed = o;
          tolerance = t;
          breached = breaches (lookup_or m 0 (scores_of the_baseline v)) o t;
        }
            ∷ found,
        refl,
        λ u. refl,
      )

  abbrev the_pairs : List (ℕ × ℕ)
  the_pairs = gated_pairs the_baseline (sorted (keys the_baseline.metrics))

  -- no pair of the baseline is missing in the report
  none_missing : some_pair lacks_mean the_pairs ≡ false
  none_missing = elim (Bool-cases (some_pair lacks_mean the_pairs)) [
    | inl h ↦
        let (v, (m, hv, hm, lacks)) =
          found_in-gated_pairs lacks_mean the_baseline (sorted (keys the_baseline.metrics)) h in
        let (o, found) = lookup-found m (scores_of the_baseline v) hm in
        let seen : observed_mean v m report.metrics none ≡ some o =
          sym (own-observed recorded_at hashes report v m) ∙ found in
        cc (lacks, seen)
    | inr h ↦ h
  ]

  module _ (steady : (x m t : ℕ) → lookup m thresholds ≡ some t → breaches x x t ≡ false)
      (distinct : Distinct (keys report.index_fingerprints)) where
    -- the gate gives a verdict
    own-returns :
        (v m : ℕ)
        → contains v (keys the_baseline.metrics) ≡ true
        → contains m (keys (scores_of the_baseline v)) ≡ true
        → is_some (lookup m thresholds) ≡ true
        → (result : GateResult) × (evaluate_gate breaches report the_baseline thresholds
            ≡ ok result)
    unfolding evaluate_gate captured
    own-returns v m hv hm ht =
        let (results, e, some_of) = gate_metrics-returns the_pairs none_missing in
        let (result, k) = verdict results (
          some_of (
            some_pair-gated_pairs has_tolerance the_baseline v m
              (sorted (keys the_baseline.metrics))
              (contains-sorted v (keys the_baseline.metrics) ∙ hv) hm ht)) in
        (
          result,
          rw
              (
                own-comparable recorded_at hashes report,
                matches_within report.index_fingerprints report.index_fingerprints distinct
                    (λ j n h. h),
              )
              (ap (gate_result breaches report the_baseline thresholds) e ∙ k),
        )
      where
        verdict :
            (results : List GateMetricResult)
            → is_nil results ≡ false
            → (result : GateResult) × (gate_result breaches report the_baseline thresholds
                  (ok results)
                ≡ ok result)
        verdict [] h = cc
        verdict (r ∷ results) h = (_, refl)

    no_breach :
        (result : GateResult)
        → evaluate_gate breaches report the_baseline thresholds ≡ ok result
        → result.passed ≡ true
    no_breach result h = elim (Bool-cases result.passed) [
      | inl k ↦ k
      | inr k ↦
          let (v, (m, (t, (o, hv, hm, ht, ho, br)))) =
            evaluate_gate-failed breaches report the_baseline thresholds result h k in
          let same : lookup_or m 0 (scores_of the_baseline v) ≡ o =
            ap (λ (x : Option ℕ). elim x [ none ↦ 0 | some w ↦ w ])
              (own-observed recorded_at hashes report v m ∙ ho) in
          cc (sym br ∙ ap (λ (x : ℕ). breaches x o t) same ∙ steady o m t ht)
    ]

    -- A run passes the gate against the baseline that it recorded itself: where `build_baseline` returns
    -- a document with some metric that has a tolerance, `evaluate_gate` of the same report and that
    -- document returns, and the result has passed. It is assumed that the float test finds no breach
    -- between equal scores, and that the dict of fingerprints has distinct keys, as each dict has.
    pub evaluate_gate-build_baseline :
        (b : BaselineDocument)
        → build_baseline recorded_at hashes report ≡ ok b
        → (v m : ℕ) → contains v (keys b.metrics) ≡ true
        → contains m (keys (scores_of b v)) ≡ true
        → is_some (lookup m thresholds) ≡ true
        → (result : GateResult) × (evaluate_gate breaches report b thresholds ≡ ok result)
          × (result.passed ≡ true)
    unfolding build_baseline
    evaluate_gate-build_baseline b h =
        subst
          (λ (d : BaselineDocument).
            (v m : ℕ)
            → contains v (keys d.metrics) ≡ true
            → contains m (keys (scores_of d v)) ≡ true
            → is_some (lookup m thresholds) ≡ true
            → (result : GateResult) × (evaluate_gate breaches report d thresholds ≡ ok result)
              × (result.passed ≡ true))
          (built (baseline_is_valid the_baseline) h)
          (λ v m hv hm ht.
            let (result, e) = own-returns v m hv hm ht in (result, e, no_breach result e))
      where
        built :
            (valid : Bool)
            → (if valid then ok the_baseline else err value_error) ≡ ok b
            → the_baseline ≡ b
        built true h = cc (h)
        built false h = cc
