-- ===== src/Runs/Store/Evolution/Tests.antt =====
-- Runs and results go forward: instances.
use rag_eval_platform.Prelude.{◌≡◌, refl, false, none, some, List, [], ◌∷◌, pos}
use rag_eval_platform.Runs.{
  queued, preparing, retrieving, cancelled, ensure_state_transition, EvalRunSpec,
}
use rag_eval_platform.Runs.Store.{Database, EvalRunRow, find_run, pin_index_fingerprint, set_state}
use rag_eval_platform.Runs.Store.Pins.{RunOp, state_op, pin_op, run}
use rag_eval_platform.Runs.Store.Evolution.{Evolves}
use rag_eval_platform.Runs.Store.Evolution.Steps.{run-Evolves}

abbrev spec : EvalRunSpec
spec = record {
  dataset = 5;
  split = 3;
  variants = 6 ∷ [];
  sample_size = none;
  generation_sample_size = none;
  generation_variants = [];
  seed = pos 0;
  generation_enabled = false;
  generator_profile = none;
  judge_profiles = [];
  generation_prompt_version = none;
  judge_prompt_version = none;
}

abbrev row : EvalRunRow
row = record {
  id = 7;
  spec = spec;
  state = queued;
  completed_queries = 0;
  total_queries = 0;
  git_commit = none;
  image_digest = none;
  index_fingerprints = [];
  created_at = 1;
  completed_at = none;
}

abbrev database : Database
database = record { runs = row ∷ []; run_variants = []; results = [] }

abbrev ops : List RunOp
ops = state_op 2 7 preparing ∷ pin_op 7 6 77 ∷ state_op 3 7 cancelled ∷ state_op 4 7 retrieving ∷ []

run-Evolves_example : Evolves database (run ops database)
run-Evolves_example = run-Evolves ops database

-- the cancelled run stays cancelled
still_cancelled :
    (find_run 7 (run ops database).runs)
    ≡ some
        (record row { state = cancelled; index_fingerprints = (6, 77) ∷ []; completed_at = some 3 })
unfolding run set_state pin_index_fingerprint ensure_state_transition
still_cancelled = refl
