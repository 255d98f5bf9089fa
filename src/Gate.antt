-- ===== src/Gate.antt =====
-- The regression gate: src/ragops/evaluation/gate.py, with the contracts of a report and of a baseline
-- in src/ragops/contracts/evaluation.py. A score stands as a number; the test on floats
-- `baseline - observed - tolerance > 1e-9` is a parameter.
pub mod Pairs
pub mod Baseline
pub mod Verdict
use rag_eval_platform.Prelude.{
  ℕ, Bool, true, false, not, ◌&&◌, ◌||◌, Option, none, some, List, [], ◌∷◌, ◌++◌, ltb, ◌==◌, opt_eq,
  is_some, if◌then◌else◌, any, all, Result, ok, err, ℤ, pos, negsuc, Error, value_error,
}
use rag_eval_platform.Prelude.Dict.{Dict, lookup, lookup_or, keys}
use rag_eval_platform.Prelude.Sort.{sort}
use rag_eval_platform.Runs.{EvalRunSpec}

pub record MetricSummary : Type 0 where
  pub metric : ℕ
  pub variant : ℕ
  pub mean : ℕ

-- `EvaluationReport`, with the fields of its run that the gate reads
pub record EvaluationReport : Type 0 where
  pub run_id : ℕ
  pub git_commit : Option ℕ
  pub spec : EvalRunSpec
  pub index_fingerprints : Dict ℕ
  pub metrics : List MetricSummary

pub record BaselineDocument : Type 0 where
  pub dataset : ℕ
  pub split : ℕ
  pub sample_size : Option ℕ
  pub seed : ℤ
  pub generation_sample_size : Option ℕ
  pub generation_variants : List ℕ
  pub generator_profile : Option ℕ
  pub judge_profiles : List ℕ
  pub generation_prompt_version : Option ℕ
  pub judge_prompt_version : Option ℕ
  pub run_id : ℕ
  pub git_commit : Option ℕ
  pub recorded_at : ℕ
  pub variant_hashes : Dict ℕ
  pub index_fingerprints : Dict ℕ
  pub metrics : Dict (Dict ℕ)

pub record GateMetricResult : Type 0 where
  pub variant : ℕ
  pub metric : ℕ
  pub baseline : ℕ
  pub observed : ℕ
  pub tolerance : ℕ
  pub breached : Bool

pub record GateResult : Type 0 where
  pub passed : Bool
  pub dataset : ℕ
  pub run_id : ℕ
  pub baseline_run_id : ℕ
  pub metrics : List GateMetricResult

abbrev pub same_int : ℤ → ℤ → Bool
same_int (pos m) (pos n) = m == n
same_int (negsuc m) (negsuc n) = m == n
same_int _ _ = false

abbrev pub same_names : List ℕ → List ℕ → Bool
same_names [] [] = true
same_names (x ∷ xs) (y ∷ ys) = x == y && same_names xs ys
same_names _ _ = false

-- the tests of `_ensure_comparable`
pub comparable : BaselineDocument → EvalRunSpec → Bool
comparable b s =
    b.dataset == s.dataset
    && b.split == s.split
    && opt_eq b.sample_size s.sample_size
    && (not (is_some s.sample_size) || same_int b.seed s.seed)
    && opt_eq b.generation_sample_size s.generation_sample_size
    && same_names b.generation_variants s.generation_variants
    && opt_eq b.generator_profile s.generator_profile
    && same_names b.judge_profiles s.judge_profiles
    && opt_eq b.generation_prompt_version s.generation_prompt_version
    && opt_eq b.judge_prompt_version s.judge_prompt_version

-- `_ensure_index_fingerprints_match`: every fingerprint of the baseline is observed
abbrev pub fingerprints_match : Dict ℕ → Dict ℕ → Bool
fingerprints_match observed baseline = all (λ e. opt_eq (lookup e.0 observed) (some e.1)) baseline

-- `observed.get((variant, metric))`: of two summaries, the later one
pub observed_mean : ℕ → ℕ → List MetricSummary → Option ℕ → Option ℕ
observed_mean variant metric [] found = found
observed_mean variant metric (s ∷ summaries) found =
    observed_mean variant metric summaries
      (if s.variant == variant && s.metric == metric then some s.mean else found)

-- `sorted(...)`
abbrev pub sorted : List ℕ → List ℕ
sorted = sort ltb

abbrev pub scores_of : BaselineDocument → ℕ → Dict ℕ
scores_of b variant = lookup_or variant [] b.metrics

-- the metrics of one variant, with the variant
abbrev pub with_variant : ℕ → List ℕ → List (ℕ × ℕ)
with_variant variant [] = []
with_variant variant (m ∷ metrics) = (variant, m) ∷ with_variant variant metrics

-- what the two loops run through
pub gated_pairs : BaselineDocument → List ℕ → List (ℕ × ℕ)
gated_pairs b [] = []
gated_pairs b (v ∷ variants) =
    with_variant v (sorted (keys (scores_of b v))) ++ gated_pairs b variants

module _ (breaches : ℕ → ℕ → ℕ → Bool) (report : EvaluationReport) (b : BaselineDocument)
    (thresholds : Dict ℕ) where
  -- one round of the inner loop: the results from here on, or the error of a missing metric
  abbrev pub gate_metric :
      ℕ
      → ℕ
      → Option ℕ
      → Option ℕ
      → Result Error (List GateMetricResult)
      → Result Error (List GateMetricResult)
  gate_metric variant metric none observed rest = rest
  gate_metric variant metric (some tolerance) none rest = err value_error
  gate_metric variant metric (some tolerance) (some observed) (err e) = err e
  gate_metric variant metric (some tolerance) (some observed) (ok rest) =
      let baseline : ℕ = lookup_or metric 0 (scores_of b variant) in
      ok (
        record {
          variant = variant;
          metric = metric;
          baseline = baseline;
          observed = observed;
          tolerance = tolerance;
          breached = breaches baseline observed tolerance;
        }
        ∷ rest)

  pub gate_metrics : List (ℕ × ℕ) → Result Error (List GateMetricResult)
  unfolding observed_mean
  gate_metrics [] = ok []
  gate_metrics ((v, m) ∷ pairs) =
      gate_metric v m (lookup m thresholds) (observed_mean v m report.metrics none)
        (gate_metrics pairs)

  abbrev pub gate_result : Result Error (List GateMetricResult) → Result Error GateResult
  gate_result (err e) = err e
  gate_result (ok []) = err value_error
  gate_result (ok (r ∷ results)) = ok (record {
    passed = not (any (λ (m : GateMetricResult). m.breached) (r ∷ results));
    dataset = report.spec.dataset;
    run_id = report.run_id;
    baseline_run_id = b.run_id;
    metrics = r ∷ results;
  })

  pub evaluate_gate : Result Error GateResult
  unfolding comparable gated_pairs gate_metrics
  evaluate_gate =
      if not (comparable b report.spec)
      then err value_error
      else (if not (fingerprints_match report.index_fingerprints b.index_fingerprints)
          then err value_error
          else gate_result (gate_metrics (gated_pairs b (sorted (keys b.metrics)))))
