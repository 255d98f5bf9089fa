-- ===== src/Runs.antt =====
-- Evaluation runs: their states and specifications (src/ragops/contracts/evaluation.py).
pub mod Lifecycle
pub mod Store
pub mod Results
pub mod Datasets
use rag_eval_platform.Prelude.{
  is_unique, ℕ, Bool, not, ◌&&◌, ◌||◌, Option, List, [], ◌∷◌, ◌==◌, is_some, is_nil, if◌then◌else◌,
  any, all, contains, Result, ok, err, ℤ, Error, value_error,
}

pub data EvalRunState : Type 0 where
  created queued preparing retrieving generating judging scoring : EvalRunState
  completed failed cancelled : EvalRunState

-- the state's place in the enumeration, by which states are compared
abbrev pub place : EvalRunState → ℕ
place created = 0
place queued = 1
place preparing = 2
place retrieving = 3
place generating = 4
place judging = 5
place scoring = 6
place completed = 7
place failed = 8
place cancelled = 9

abbrev pub same_state : EvalRunState → EvalRunState → Bool
same_state s t = place s == place t

abbrev pub state_in : EvalRunState → List EvalRunState → Bool
state_in s states = any (same_state s) states

-- `_NEXT_STATES`
abbrev next_states : EvalRunState → List EvalRunState
next_states created = queued ∷ []
next_states queued = preparing ∷ []
next_states preparing = retrieving ∷ []
next_states retrieving = generating ∷ scoring ∷ []
next_states generating = judging ∷ scoring ∷ []
next_states judging = scoring ∷ []
next_states scoring = completed ∷ []
next_states completed = []
next_states failed = []
next_states cancelled = []

abbrev pub finished_states : List EvalRunState
finished_states = completed ∷ failed ∷ cancelled ∷ []

unfoldable pub ensure_state_transition : EvalRunState → EvalRunState → Result Error Unit
ensure_state_transition current target =
    if same_state target current
    then ok tt
    else (if state_in target (failed ∷ cancelled ∷ []) && not (state_in current finished_states)
        then ok tt
        else (if not (state_in target (next_states current)) then err value_error else ok tt))

pub record EvalRunSpec : Type 0 where
  pub dataset : ℕ
  pub split : ℕ
  pub variants : List ℕ
  pub sample_size : Option ℕ
  pub generation_sample_size : Option ℕ
  pub generation_variants : List ℕ
  pub seed : ℤ
  pub generation_enabled : Bool
  pub generator_profile : Option ℕ
  pub judge_profiles : List ℕ
  pub generation_prompt_version : Option ℕ
  pub judge_prompt_version : Option ℕ

-- `validate_generation_settings`
abbrev spec_is_valid : EvalRunSpec → Bool
spec_is_valid s =
    is_unique s.variants
    && not (
        s.generation_enabled
        && (not (is_some s.generator_profile) || not (is_some s.generation_prompt_version)))
    && is_unique s.generation_variants
    && all (λ v. contains v s.variants) s.generation_variants
    && (s.generation_enabled
        || not (
            is_some s.generation_sample_size
            || not (is_nil s.generation_variants)
            || is_some s.generator_profile
            || not (is_nil s.judge_profiles)
            || is_some s.generation_prompt_version
            || is_some s.judge_prompt_version))
    && (is_nil s.judge_profiles || is_some s.judge_prompt_version)
