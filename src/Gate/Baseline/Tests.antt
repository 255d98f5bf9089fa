-- ===== src/Gate/Baseline/Tests.antt =====
-- A run against its own baseline: instances.
use rag_eval_platform.Prelude.{
  ℕ, ◌+◌, ◌≡◌, refl, arith, Bool, true, false, none, [], ◌∷◌, ltb, ok, err, value_error, pos, some,
}
use rag_eval_platform.Prelude.Dict.{Dict, lookup}
use rag_eval_platform.Runs.{EvalRunSpec}
use rag_eval_platform.Gate.{EvaluationReport, BaselineDocument, GateResult, evaluate_gate}
use rag_eval_platform.Gate.Baseline.{captured, build_baseline, record_metrics, baseline_is_valid}
use rag_eval_platform.Gate.Baseline.Own.{evaluate_gate-build_baseline}

abbrev spec : EvalRunSpec
spec = record {
  dataset = 1;
  split = 2;
  variants = 5 ∷ [];
  sample_size = some 10;
  generation_sample_size = none;
  generation_variants = [];
  seed = pos 42;
  generation_enabled = false;
  generator_profile = none;
  judge_profiles = [];
  generation_prompt_version = none;
  judge_prompt_version = none;
}

abbrev report : EvaluationReport
report = record {
  run_id = 3;
  git_commit = none;
  spec = spec;
  index_fingerprints = (5, 77) ∷ [];
  metrics =
      record { metric = 8; variant = 5; mean = 50 }
      ∷ record { metric = 9; variant = 5; mean = 10 }
      ∷ [];
}

abbrev thresholds : Dict ℕ
thresholds = (8, 2) ∷ []

abbrev fell : ℕ → ℕ → ℕ → Bool
fell old new tolerance = ltb (new + tolerance) old

abbrev document : BaselineDocument
document = captured 1 ((5, 66) ∷ []) report

builds : build_baseline 1 ((5, 66) ∷ []) report ≡ ok document
unfolding build_baseline captured baseline_is_valid record_metrics
builds = refl

-- without the hash of the variant there is no baseline
refuses : build_baseline 1 [] report ≡ err value_error
unfolding build_baseline captured baseline_is_valid record_metrics
refuses = refl

records : document.metrics ≡ (5, (8, 50) ∷ (9, 10) ∷ []) ∷ []
unfolding captured record_metrics
records = refl

steady : (x m t : ℕ) → lookup m thresholds ≡ some t → fell x x t ≡ false
steady x m t h = ground arith

evaluate_gate-build_baseline_example :
    (result : GateResult) × (evaluate_gate fell report document thresholds ≡ ok result)
    × (result.passed ≡ true)
unfolding captured record_metrics
evaluate_gate-build_baseline_example =
    evaluate_gate-build_baseline fell 1 ((5, 66) ∷ []) report thresholds steady (refl, tt) document
      builds 5 8 refl refl refl
