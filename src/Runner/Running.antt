-- ===== src/Runner/Running.antt =====
-- The stages of a run in their order: `run` and `_run_retrieval` (src/ragops/evaluation/runner.py).
use rag_eval_platform.Prelude.{
  ℕ, ◌*◌, Bool, not, ◌&&◌, ◌||◌, List, is_some, is_nil, if◌then◌else◌, length, any, contains,
  Result, ok, err, pure, raise, ◌>>=◌, ◌>>◌, Error, value_error,
}
use rag_eval_platform.Prelude.Dict.{Dict, keys}
use rag_eval_platform.Runs.{created, same_state, state_in, finished_states, EvalRunSpec}
use rag_eval_platform.Runs.Store.{EvalRunRow}
use rag_eval_platform.Runs.Datasets.{EvaluationQuery}
use rag_eval_platform.Runner.{EvaluationRunner, World, Task, in_transaction, get_run, mark_failed}
use rag_eval_platform.Runner.Retrieving.{evaluate_queries}
use rag_eval_platform.Runner.Answering.{for_each}
use rag_eval_platform.Runner.Execution.{
  prepare, load_sample, expected_hashes, enter_retrieval, retrieval_stage, select_generation,
  generation_stage, judge_stage, scoring_stage, unless_ended,
}

module _ (e : EvaluationRunner) where
  -- the stages after the generation, and after the retrieval
  abbrev pub judge_and_score : List (EvaluationQuery × ℕ) → EvalRunRow → Task EvalRunRow
  judge_and_score items row = judge_stage e items row >>= unless_ended scoring_stage

  abbrev pub generate_and_judge : EvalRunRow → List (EvaluationQuery × ℕ) → Task EvalRunRow
  generate_and_judge row items =
      generation_stage e items row >>= unless_ended (judge_and_score items)

  abbrev pub after_retrieving : List EvaluationQuery → EvalRunRow → Task EvalRunRow
  after_retrieving queries row = select_generation e row queries >>= generate_and_judge row

  -- `total_work`
  abbrev pub total_work : EvalRunRow → List EvaluationQuery → ℕ
  total_work row queries = length queries * length row.spec.variants

  abbrev pub retrieve_and_on :
      List EvaluationQuery → Dict ℕ → Dict ℕ → ℕ → EvalRunRow → Task EvalRunRow
  retrieve_and_on queries hashes pins total row =
      retrieval_stage e queries hashes pins total row >>= unless_ended (after_retrieving queries)

  abbrev pub with_hashes : EvalRunRow → List EvaluationQuery → Dict ℕ → Task EvalRunRow
  with_hashes row queries hashes =
      enter_retrieval (total_work row queries) row
      >>= retrieve_and_on queries hashes row.index_fingerprints (total_work row queries)

  abbrev pub with_queries : EvalRunRow → List EvaluationQuery → Task EvalRunRow
  with_queries row queries = expected_hashes e row >>= with_hashes row queries

  abbrev pub prepared : EvalRunRow → Task EvalRunRow
  prepared row = load_sample e row.spec >>= with_queries row

  -- `_run_retrieval`
  unfoldable pub run_retrieval : EvalRunRow → Task EvalRunRow
  unfolding in_transaction evaluate_queries for_each
  run_retrieval row = prepare row >>= prepared

  -- `except Exception`: the run is marked as failed, and the exception is raised again
  abbrev pub or_failed : ℕ → Result Error EvalRunRow × World → Result Error EvalRunRow × World
  or_failed run_id (ok row, w) = (ok row, w)
  or_failed run_id (err x, w) = (mark_failed run_id >> raise x) w

  abbrev pub guarded : ℕ → EvalRunRow → Task EvalRunRow
  guarded run_id row w = or_failed run_id (run_retrieval row w)

  -- the profiles for which there is no judge
  abbrev missing_judges : EvalRunSpec → Bool
  missing_judges spec = any (λ p. not (contains p (keys e.judges))) spec.judge_profiles

  -- the checks of `run` on the services
  abbrev pub unavailable : EvalRunSpec → Bool
  unavailable spec =
      (spec.generation_enabled && not (is_some e.answer_service))
      || (missing_judges spec
          || (not (is_nil spec.judge_profiles) && not (is_some e.judge_renderer)))

  abbrev pub dispatch : ℕ → EvalRunRow → Task EvalRunRow
  dispatch run_id row =
      if state_in row.state finished_states
      then pure row
      else (if same_state row.state created || unavailable row.spec
          then raise value_error
          else guarded run_id row)

  -- `run`
  unfoldable pub run_evaluation : ℕ → Task EvalRunRow
  unfolding run_retrieval mark_failed
  run_evaluation run_id = get_run run_id >>= dispatch run_id
