-- ===== src/Gate/Verdict/Tests.antt =====
-- A baseline of one variant with two metrics, and a run that holds it.
use rag_eval_platform.Prelude.{
  ℕ, ◌+◌, ◌≡◌, refl, Bool, true, false, not, none, some, [], ◌∷◌, ltb, contains, ok, pos,
}
use rag_eval_platform.Prelude.Dict.{Dict, lookup, lookup_or, keys}
use rag_eval_platform.Prelude.Sort.{sort}
use rag_eval_platform.Runs.{EvalRunSpec}
use rag_eval_platform.Gate.{
  EvaluationReport, BaselineDocument, GateResult, comparable, observed_mean, scores_of,
  evaluate_gate,
}
use rag_eval_platform.Gate.Verdict.{evaluate_gate-passed}

abbrev spec : EvalRunSpec
spec = record {
  dataset = 1;
  split = 2;
  variants = 5 ∷ [];
  sample_size = none;
  generation_sample_size = none;
  generation_variants = [];
  seed = pos 42;
  generation_enabled = false;
  generator_profile = none;
  judge_profiles = [];
  generation_prompt_version = none;
  judge_prompt_version = none;
}

-- a run that reports the given mean of metric 8
abbrev report : ℕ → EvaluationReport
report mean = record {
  run_id = 3;
  git_commit = none;
  spec = spec;
  index_fingerprints = (5, 77) ∷ [];
  metrics =
      record { metric = 8; variant = 5; mean = mean }
      ∷ record { metric = 9; variant = 5; mean = 10 }
      ∷ [];
}

abbrev baseline : BaselineDocument
baseline = record {
  dataset = 1;
  split = 2;
  sample_size = none;
  seed = pos 7;
  generation_sample_size = none;
  generation_variants = [];
  generator_profile = none;
  judge_profiles = [];
  generation_prompt_version = none;
  judge_prompt_version = none;
  run_id = 4;
  git_commit = none;
  recorded_at = 1;
  variant_hashes = (5, 66) ∷ [];
  index_fingerprints = (5, 77) ∷ [];
  metrics = (5, (9, 99) ∷ (8, 52) ∷ []) ∷ [];
}

abbrev thresholds : Dict ℕ
thresholds = (8, 2) ∷ []

abbrev fell : ℕ → ℕ → ℕ → Bool
fell old new tolerance = ltb (new + tolerance) old

abbrev verdict : ℕ → Bool → GateResult
verdict mean breached = record {
  passed = not breached;
  dataset = 1;
  run_id = 3;
  baseline_run_id = 4;
  metrics =
      record {
        variant = 5;
        metric = 8;
        baseline = 52;
        observed = mean;
        tolerance = 2;
        breached = breached;
      }
      ∷ [];
}

passes : evaluate_gate fell (report 50) baseline thresholds ≡ ok (verdict 50 false)
unfolding evaluate_gate sort
passes = refl

fails : evaluate_gate fell (report 49) baseline thresholds ≡ ok (verdict 49 true)
unfolding evaluate_gate sort
fails = refl

evaluate_gate-passed_example :
    (comparable baseline spec ≡ true)
    × ((v m t : ℕ)
        → contains v (5 ∷ []) ≡ true
        → contains m (keys (scores_of baseline v)) ≡ true
        → lookup m thresholds ≡ some t
        → (o : ℕ) × (observed_mean v m (report 50).metrics none ≡ some o)
          × (fell (lookup_or m 0 (scores_of baseline v)) o t ≡ false))
evaluate_gate-passed_example =
    evaluate_gate-passed fell (report 50) baseline thresholds (verdict 50 false) passes refl
