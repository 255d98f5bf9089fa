-- ===== src/Runs/Lifecycle/Tests.antt =====
-- A run that generates, and one that fails.
use rag_eval_platform.Prelude.{◌≡◌, refl, true, List, [], ◌∷◌, arith, ok, err, value_error}
use rag_eval_platform.Runs.{
  EvalRunState, created, queued, preparing, retrieving, generating, judging, scoring, completed,
  failed, state_in, ensure_state_transition,
}
use rag_eval_platform.Runs.Lifecycle.{walk, walk-main_states}

abbrev generating_run : List EvalRunState
generating_run = queued ∷ preparing ∷ retrieving ∷ generating ∷ judging ∷ scoring ∷ completed ∷ []

walk_completes : walk created generating_run ≡ ok completed
unfolding walk ensure_state_transition
walk_completes = refl

walk-main_states_example : state_in preparing generating_run ≡ true
walk-main_states_example = walk-main_states preparing generating_run (ground arith) walk_completes

abbrev still : List EvalRunState
still = failed ∷ failed ∷ []

walk_fails : walk failed still ≡ ok failed
unfolding walk ensure_state_transition
walk_fails = refl

no_shortcut : walk created (queued ∷ completed ∷ []) ≡ err value_error
unfolding walk ensure_state_transition
no_shortcut = refl
