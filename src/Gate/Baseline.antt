-- ===== src/Gate/Baseline.antt =====
-- The capture of a run as a baseline: `build_baseline` of src/ragops/evaluation/gate.py, with the
-- validator of `BaselineDocument` in src/ragops/contracts/evaluation.py.
pub mod Recorded
pub mod Own
mod Tests
use rag_eval_platform.Prelude.{
  ℕ, Bool, not, ◌&&◌, List, [], ◌∷◌, ◌==◌, is_nil, if◌then◌else◌, all, contains, Result, ok, err,
  Error, value_error,
}
use rag_eval_platform.Prelude.Dict.{Dict, lookup_or, insert, keys}
use rag_eval_platform.Gate.{MetricSummary, EvaluationReport, BaselineDocument}

-- `metrics.setdefault(summary.variant, {})[summary.metric] = summary.mean`
abbrev pub record_metric : MetricSummary → Dict (Dict ℕ) → Dict (Dict ℕ)
record_metric s metrics =
    insert s.variant (insert s.metric s.mean (lookup_or s.variant [] metrics)) metrics

unfoldable pub record_metrics : List MetricSummary → Dict (Dict ℕ) → Dict (Dict ℕ)
record_metrics [] metrics = metrics
record_metrics (s ∷ summaries) metrics = record_metrics summaries (record_metric s metrics)

-- the equality of the sets of two lists
abbrev same_set : List ℕ → List ℕ → Bool
same_set xs ys = all (λ (x : ℕ). contains x ys) xs && all (λ (y : ℕ). contains y xs) ys

-- `validate_metrics`, and the two dicts that cannot be empty
unfoldable pub baseline_is_valid : BaselineDocument → Bool
baseline_is_valid b =
    not (is_nil b.index_fingerprints)
    && not (is_nil b.metrics)
    && all (λ (e : ℕ × Dict ℕ). not (e.0 == 0) && not (is_nil e.1)) b.metrics
    && same_set (keys b.variant_hashes) (keys b.metrics)
    && same_set (keys b.index_fingerprints) (keys b.metrics)

module _ (recorded_at : ℕ) (variant_hashes : Dict ℕ) (report : EvaluationReport) where
  -- the fields of the document
  unfoldable pub captured : BaselineDocument
  unfolding record_metrics
  captured = record {
    dataset = report.spec.dataset;
    split = report.spec.split;
    sample_size = report.spec.sample_size;
    seed = report.spec.seed;
    generation_sample_size = report.spec.generation_sample_size;
    generation_variants = report.spec.generation_variants;
    generator_profile = report.spec.generator_profile;
    judge_profiles = report.spec.judge_profiles;
    generation_prompt_version = report.spec.generation_prompt_version;
    judge_prompt_version = report.spec.judge_prompt_version;
    run_id = report.run_id;
    git_commit = report.git_commit;
    recorded_at = recorded_at;
    variant_hashes = variant_hashes;
    index_fingerprints = report.index_fingerprints;
    metrics = record_metrics report.metrics [];
  }

  unfoldable pub build_baseline : Result Error BaselineDocument
  unfolding captured baseline_is_valid
  build_baseline = if baseline_is_valid captured then ok captured else err value_error
