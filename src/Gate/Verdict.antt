-- ===== src/Gate/Verdict.antt =====
-- What the verdict of the gate means (src/ragops/evaluation/gate.py).
mod Tests
use rag_eval_platform.Prelude.{
  ℕ, ◌≡◌, refl, sym, ap, ◌∙◌, inl, inr, Bool, true, false, not, ◌||◌, Option, none, some, List, [],
  ◌∷◌, arith, if◌then◌else◌, Bool-cases, any, contains, Result, ok, err, Error, value_error,
}
use rag_eval_platform.Prelude.Dict.{Dict, lookup, lookup_or, keys}
use rag_eval_platform.Gate.{
  EvaluationReport, BaselineDocument, GateMetricResult, GateResult, comparable, fingerprints_match,
  observed_mean, sorted, scores_of, gated_pairs, gate_metric, gate_metrics, gate_result,
  evaluate_gate,
}
use rag_eval_platform.Gate.Pairs.{
  some_pair, some_pair-gated_pairs, contains-sorted, found_in-gated_pairs,
}

module _ (breaches : ℕ → ℕ → ℕ → Bool) (report : EvaluationReport) (b : BaselineDocument)
    (thresholds : Dict ℕ) where
  abbrev is_breach : ℕ → ℕ → Option ℕ → Option ℕ → Bool
  is_breach v m (some t) (some o) = breaches (lookup_or m 0 (scores_of b v)) o t
  is_breach v m (some t) none = false
  is_breach v m none o = false

  abbrev is_missing : Option ℕ → Option ℕ → Bool
  is_missing (some t) none = true
  is_missing (some t) (some o) = false
  is_missing none o = false

  -- a gated metric that has fallen, and one that is not reported
  has_breach : ℕ → ℕ → Bool
  has_breach v m = is_breach v m (lookup m thresholds) (observed_mean v m report.metrics none)

  lacks_metric : ℕ → ℕ → Bool
  lacks_metric v m = is_missing (lookup m thresholds) (observed_mean v m report.metrics none)

  abbrev breached_in : List GateMetricResult → Bool
  breached_in results = any (λ (m : GateMetricResult). m.breached) results

  gate_metrics-ok :
      (pairs : List (ℕ × ℕ)) (results : List GateMetricResult)
      → gate_metrics breaches report b thresholds pairs ≡ ok results
      → (some_pair lacks_metric pairs ≡ false) × (breached_in results ≡ some_pair has_breach pairs)
  unfolding gate_metrics some_pair has_breach lacks_metric
  gate_metrics-ok [] results h = ground (arith, h)
  gate_metrics-ok ((v, m) ∷ pairs) results h =
      go (lookup m thresholds) (observed_mean v m report.metrics none)
        (gate_metrics breaches report b thresholds pairs) (gate_metrics-ok pairs) h
    where
      go :
          (t o : Option ℕ) (rest : Result Error (List GateMetricResult))
          → ((rs : List GateMetricResult)
              → rest ≡ ok rs
              → (some_pair lacks_metric pairs ≡ false)
                × (breached_in rs ≡ some_pair has_breach pairs))
          → gate_metric breaches report b thresholds v m t o rest ≡ ok results
          → ((is_missing t o || some_pair lacks_metric pairs) ≡ false)
            × (breached_in results ≡ (is_breach v m t o || some_pair has_breach pairs))
      go none o rest ih h = ih results h
      go (some t) none rest ih h = cc
      go (some t) (some o) (err e) ih h = cc
      go (some t) (some o) (ok rs) ih h =
          let (l, k) = ih rs refl in
          let head : GateMetricResult = record {
            variant = v;
            metric = m;
            baseline = lookup_or m 0 (scores_of b v);
            observed = o;
            tolerance = t;
            breached = breaches (lookup_or m 0 (scores_of b v)) o t;
          } in
          let same : head ∷ rs ≡ results = ground (arith, h) in
          (
            l,
            ap breached_in (sym same)
                ∙ ap (λ (x : Bool). breaches (lookup_or m 0 (scores_of b v)) o t || x) k,
          )

  gate_result-ok :
      (out : Result Error (List GateMetricResult)) (result : GateResult)
      → gate_result breaches report b thresholds out ≡ ok result
      → (results : List GateMetricResult) × (out ≡ ok results)
        × (result.passed ≡ not (breached_in results))
  gate_result-ok (err e) result h = cc
  gate_result-ok (ok []) result h = cc
  gate_result-ok (ok (r ∷ results)) result h =
      let verdict : GateResult = record {
        passed = not (breached_in (r ∷ results));
        dataset = report.spec.dataset;
        run_id = report.run_id;
        baseline_run_id = b.run_id;
        metrics = r ∷ results;
      } in
      let same : verdict ≡ result = ground (arith, h) in
      (r ∷ results, refl, ap (λ (x : GateResult). x.passed) (sym same))

  abbrev all_pairs : List (ℕ × ℕ)
  all_pairs = gated_pairs b (sorted (keys b.metrics))

  evaluate_gate-ok :
      (result : GateResult)
      → evaluate_gate breaches report b thresholds ≡ ok result
      → (comparable b report.spec ≡ true)
        × (some_pair lacks_metric all_pairs ≡ false)
        × (result.passed ≡ not (some_pair has_breach all_pairs))
  unfolding evaluate_gate
  evaluate_gate-ok result h = go (comparable b report.spec) refl h
    where
      checked :
          (match : Bool)
          → (if not match
              then err value_error
              else gate_result breaches report b thresholds
                  (gate_metrics breaches report b thresholds all_pairs))
            ≡ ok result
          → (some_pair lacks_metric all_pairs ≡ false)
            × (result.passed ≡ not (some_pair has_breach all_pairs))
      checked false h = cc
      checked true h =
          let (results, e, p) =
            gate_result-ok (gate_metrics breaches report b thresholds all_pairs) result h in
          let (l, k) = gate_metrics-ok all_pairs results e in (l, p ∙ ap not k)

      go :
          (same : Bool)
          → comparable b report.spec ≡ same
          → (if not same
              then err value_error
              else (if not (fingerprints_match report.index_fingerprints b.index_fingerprints)
                  then err value_error
                  else gate_result breaches report b thresholds
                      (gate_metrics breaches report b thresholds all_pairs)))
            ≡ ok result
          → (comparable b report.spec ≡ true)
            × (some_pair lacks_metric all_pairs ≡ false)
            × (result.passed ≡ not (some_pair has_breach all_pairs))
      go false e h = cc
      go true e h =
          let (l, p) =
            checked (fingerprints_match report.index_fingerprints b.index_fingerprints) h in
          (e, l, p)

  absent_at :
      (test : ℕ → ℕ → Bool) (v m : ℕ)
      → contains v (keys b.metrics) ≡ true
      → contains m (keys (scores_of b v)) ≡ true
      → some_pair test all_pairs ≡ false
      → test v m ≡ false
  absent_at test v m hv hm none_there = elim (Bool-cases (test v m)) [
    | inl t ↦ cc (
        sym none_there
        ∙ some_pair-gated_pairs test b v m (sorted (keys b.metrics))
            (contains-sorted v (keys b.metrics) ∙ hv) hm t)
    | inr t ↦ t
  ]

  -- A gate that passes has missed nothing: each metric that the baseline records for a variant and that
  -- has a tolerance is reported by the run, and it has not fallen below the baseline by more than
  -- the tolerance, by the code's own test on floats; and run and baseline are comparable.
  pub evaluate_gate-passed :
      (result : GateResult)
      → evaluate_gate breaches report b thresholds ≡ ok result
      → result.passed ≡ true
      → (comparable b report.spec ≡ true)
        × ((v m t : ℕ)
            → contains v (keys b.metrics) ≡ true
            → contains m (keys (scores_of b v)) ≡ true
            → lookup m thresholds ≡ some t
            → (o : ℕ) × (observed_mean v m report.metrics none ≡ some o)
              × (breaches (lookup_or m 0 (scores_of b v)) o t ≡ false))
  unfolding has_breach lacks_metric
  evaluate_gate-passed result h passes =
      let (same, l, p) = evaluate_gate-ok result h in
      let clean : some_pair has_breach all_pairs ≡ false = ground (arith, p, passes) in
      (
        same,
        λ v m t hv hm ht.
            seen v m t (observed_mean v m report.metrics none) refl ht
              (absent_at lacks_metric v m hv hm l) (absent_at has_breach v m hv hm clean),
      )
    where
      seen :
          (v m t : ℕ) (o : Option ℕ)
          → observed_mean v m report.metrics none ≡ o
          → lookup m thresholds ≡ some t
          → lacks_metric v m ≡ false
          → has_breach v m ≡ false
          → (x : ℕ) × (observed_mean v m report.metrics none ≡ some x)
            × (breaches (lookup_or m 0 (scores_of b v)) x t ≡ false)
      seen v m t none e ht l c =
          let missing : lacks_metric v m ≡ true =
            ap (λ (x : Option ℕ). is_missing x (observed_mean v m report.metrics none)) ht
            ∙ ap (is_missing (some t)) e in
          cc (sym missing ∙ l)
      seen v m t (some x) e ht l c =
          let as_test : has_breach v m ≡ breaches (lookup_or m 0 (scores_of b v)) x t =
            ap (λ (y : Option ℕ). is_breach v m y (observed_mean v m report.metrics none)) ht
            ∙ ap (is_breach v m (some t)) e in
          (x, e, sym as_test ∙ c)

  -- A gate that fails has a reason: some metric that the baseline records has a tolerance, is reported
  -- by the run, and has fallen by more than that.
  pub evaluate_gate-failed :
      (result : GateResult)
      → evaluate_gate breaches report b thresholds ≡ ok result
      → result.passed ≡ false
      → (v : ℕ) × ((m : ℕ) × ((t : ℕ) × ((o : ℕ) × (contains v (keys b.metrics) ≡ true)
              × (contains m (keys (scores_of b v)) ≡ true)
              × (lookup m thresholds ≡ some t)
              × (observed_mean v m report.metrics none ≡ some o)
              × (breaches (lookup_or m 0 (scores_of b v)) o t ≡ true))))
  unfolding has_breach
  evaluate_gate-failed result h fails =
      let (same, l, p) = evaluate_gate-ok result h in
      let dirty : some_pair has_breach all_pairs ≡ true = ground (arith, p, fails) in
      let (v, (m, hv, hm, t)) = found_in-gated_pairs has_breach b (sorted (keys b.metrics)) dirty in
      let (tol, (o, ht, ho, br)) =
        reason v m (lookup m thresholds) (observed_mean v m report.metrics none) refl refl t in
      (v, (m, (tol, (o, sym (contains-sorted v (keys b.metrics)) ∙ hv, hm, ht, ho, br))))
    where
      reason :
          (v m : ℕ) (t o : Option ℕ)
          → lookup m thresholds ≡ t
          → observed_mean v m report.metrics none ≡ o
          → is_breach v m t o ≡ true
          → (x : ℕ) × ((y : ℕ) × (lookup m thresholds ≡ some x)
              × (observed_mean v m report.metrics none ≡ some y)
              × (breaches (lookup_or m 0 (scores_of b v)) y x ≡ true))
      reason v m none o e f h = cc
      reason v m (some t) none e f h = cc
      reason v m (some t) (some o) e f h = (t, (o, e, f, h))
