-- ===== src/Runner/Execution.antt =====
-- The stages of a run, the parts of `_run_retrieval` (src/ragops/evaluation/runner.py).
use rag_eval_platform.Prelude.{
  ℕ, Bool, not, ◌&&◌, Option, none, some, List, [], ◌∷◌, ◌==◌, opt_eq, is_nil, if◌then◌else◌, any,
  all, contains, Result, ok, err, pure, or_raise, ◌>>=◌, ◌>>◌, raise_if, Error, value_error,
  key_error,
}
use rag_eval_platform.Prelude.Dict.{Dict, lookup, keys}
use rag_eval_platform.Runs.{
  EvalRunState, queued, preparing, retrieving, generating, judging, scoring, completed, cancelled,
  same_state, EvalRunSpec,
}
use rag_eval_platform.Runs.Store.{EvalRunRow}
use rag_eval_platform.Generation.{AnswerResponse}
use rag_eval_platform.Answers.{AnswerRequest}
use rag_eval_platform.Retrieval.{VariantConfig}
use rag_eval_platform.Retrieval.Pipeline.{DatasetManifest}
use rag_eval_platform.Runs.Datasets.{EvaluationQuery, QueryResult}
use rag_eval_platform.Runner.{
  JudgeRequest, EvaluationRunner, Task, lift, get_run, enter_state, enter_progress, variant_hashes,
  work_done, results_of, queries_for,
}
use rag_eval_platform.Runner.Selection.{select_evaluation_queries}
use rag_eval_platform.Runner.Retrieving.{RunWork, evaluate_queries}
use rag_eval_platform.Runner.Answering.{
  answer_one, judge_one, the_service, the_renderer, for_each, work_items,
}

-- How a stage ends: the run is returned, or the next stage goes on with it.
pub data StageEnd : Type 0 where
  returns : EvalRunRow → StageEnd
  goes_on : EvalRunRow → StageEnd

abbrev pub in_state : EvalRunState → EvalRunRow → Bool
in_state state row = same_state row.state state

-- QUEUED to PREPARING
abbrev pub prepare : EvalRunRow → Task EvalRunRow
prepare row = if in_state queued row then enter_state row.id preparing else pure row

-- the queries of the run's split, and their sample
abbrev pub some_queries : List EvaluationQuery → Task (List EvaluationQuery)
some_queries queries = raise_if (is_nil queries) value_error >> pure queries

abbrev pub select :
    EvaluationRunner → EvalRunSpec → List EvaluationQuery → Task (List EvaluationQuery)
select e spec queries =
    lift (select_evaluation_queries e.text_lt e.digest queries spec.sample_size spec.seed)
    >>= some_queries

abbrev pub load_split :
    EvaluationRunner → EvalRunSpec → DatasetManifest → Task (List EvaluationQuery)
load_split e spec manifest =
    raise_if (not (spec.split == manifest.default_split)) value_error
    >> queries_for e spec.dataset manifest.version spec.split
    >>= select e spec

abbrev pub load_sample : EvaluationRunner → EvalRunSpec → Task (List EvaluationQuery)
load_sample e spec = or_raise (lookup spec.dataset e.datasets) key_error >>= load_split e spec

-- `current_hashes`, and the comparison with the hashes of the run
abbrev with_hash :
    EvaluationRunner → ℕ → Option VariantConfig → Result Error (Dict ℕ) → Result Error (Dict ℕ)
with_hash e v none rest = err key_error
with_hash e v (some c) (err x) = err x
with_hash e v (some c) (ok hashes) = ok ((v, e.configuration_hash c) ∷ hashes)

abbrev pub current_hashes : EvaluationRunner → List ℕ → Result Error (Dict ℕ)
current_hashes e [] = ok []
current_hashes e (v ∷ variants) = with_hash e v (lookup v e.variants) (current_hashes e variants)

abbrev is_subdict : Dict ℕ → Dict ℕ → Bool
is_subdict a b = all (λ (p : ℕ × ℕ). opt_eq (lookup p.0 a) (lookup p.0 b)) a

abbrev pub dict_eq : Dict ℕ → Dict ℕ → Bool
dict_eq a b = is_subdict a b && is_subdict b a

abbrev pub compare_hashes : Dict ℕ → Dict ℕ → Task (Dict ℕ)
compare_hashes expected current =
    raise_if (not (dict_eq expected current)) value_error >> pure expected

abbrev pub check_hashes : EvaluationRunner → EvalRunSpec → Dict ℕ → Task (Dict ℕ)
check_hashes e spec expected = lift (current_hashes e spec.variants) >>= compare_hashes expected

abbrev pub expected_hashes : EvaluationRunner → EvalRunRow → Task (Dict ℕ)
expected_hashes e row = variant_hashes row.id >>= check_hashes e row.spec

-- sets the progress, and goes from PREPARING to RETRIEVING
abbrev pub to_retrieving : EvalRunRow → Task EvalRunRow
to_retrieving row = enter_state row.id retrieving

abbrev pub enter_retrieval : ℕ → EvalRunRow → Task EvalRunRow
enter_retrieval total row =
    if in_state preparing row
    then (enter_progress row.id row.completed_queries total >>= to_retrieving)
    else (if in_state retrieving row
        then enter_progress row.id row.completed_queries total
        else pure row)

-- after the retrieval loops
abbrev pub unpinned : EvalRunRow → Bool
unpinned row = any (λ v. not (contains v (keys row.index_fingerprints))) row.spec.variants

abbrev pub after_retrieval : EvalRunRow → EvalRunState
after_retrieval row = if row.spec.generation_enabled then generating else scoring

abbrev pub on : EvalRunRow → Task StageEnd
on row = pure (goes_on row)

abbrev pub leave_retrieval : ℕ → EvalRunRow → Task StageEnd
leave_retrieval total row =
    if in_state cancelled row
    then pure (returns row)
    else (raise_if (not (row.completed_queries == total)) value_error
        >> raise_if (unpinned row) value_error
        >> enter_state row.id (after_retrieval row)
        >>= on)

abbrev pub end_retrieval : ℕ → ℕ → Option EvalRunRow → Task StageEnd
end_retrieval run_id total (some row) = pure (returns row)
end_retrieval run_id total none = get_run run_id >>= leave_retrieval total

abbrev pub work_of : EvalRunRow → Dict ℕ → List (ℕ × ℕ) → RunWork
work_of row hashes done = record {
  run_id = row.id;
  dataset = row.spec.dataset;
  variants = row.spec.variants;
  hashes = hashes;
  completed = done;
}

-- the loops start from the pins that the run had when it was picked up
abbrev pub retrieve_missing :
    EvaluationRunner
    → List EvaluationQuery
    → Dict ℕ
    → Dict ℕ
    → EvalRunRow
    → List (ℕ × ℕ)
    → Task (Option EvalRunRow)
retrieve_missing e queries hashes pins row done =
    evaluate_queries e (work_of row hashes done) queries pins

abbrev pub retrieval_stage :
    EvaluationRunner → List EvaluationQuery → Dict ℕ → Dict ℕ → ℕ → EvalRunRow → Task StageEnd
retrieval_stage e queries hashes pins total row =
    if in_state retrieving row
    then (work_done row.id
        >>= retrieve_missing e queries hashes pins row
        >>= end_retrieval row.id total)
    else on row

-- what the generation and the judge stage go through
abbrev pub generation_variants : EvalRunSpec → List ℕ
generation_variants spec =
    if is_nil spec.generation_variants then spec.variants else spec.generation_variants

abbrev pub select_generation :
    EvaluationRunner → EvalRunRow → List EvaluationQuery → Task (List (EvaluationQuery × ℕ))
select_generation e row queries =
    lift (
      select_evaluation_queries e.text_lt e.digest queries row.spec.generation_sample_size
        row.spec.seed)
    >>= λ (sample : List EvaluationQuery). pure (work_items sample (generation_variants row.spec))

abbrev pub end_loop : ℕ → EvalRunState → Option EvalRunRow → Task StageEnd
end_loop run_id next (some row) = pure (returns row)
end_loop run_id next none = enter_state run_id next >>= on

abbrev pub after_generation : EvalRunRow → EvalRunState
after_generation row = if is_nil row.spec.judge_profiles then scoring else judging

abbrev answer_all :
    EvaluationRunner
    → List (EvaluationQuery × ℕ)
    → EvalRunRow
    → (ℕ → AnswerRequest → Result Error AnswerResponse)
    → List QueryResult
    → Task StageEnd
answer_all e items row service results =
    for_each (answer_one e row service results) items >>= end_loop row.id (after_generation row)

abbrev pub answer_with :
    EvaluationRunner
    → List (EvaluationQuery × ℕ)
    → EvalRunRow
    → (ℕ → AnswerRequest → Result Error AnswerResponse)
    → Task StageEnd
answer_with e items row service = results_of e row.id >>= answer_all e items row service

abbrev pub generation_stage :
    EvaluationRunner → List (EvaluationQuery × ℕ) → EvalRunRow → Task StageEnd
generation_stage e items row =
    if in_state generating row then the_service e >>= answer_with e items row else on row

abbrev judge_all :
    EvaluationRunner
    → List (EvaluationQuery × ℕ)
    → EvalRunRow
    → (ℕ → AnswerResponse → JudgeRequest)
    → List QueryResult
    → Task StageEnd
judge_all e items row render results =
    for_each (judge_one e row render results) items >>= end_loop row.id scoring

abbrev pub judge_through :
    EvaluationRunner
    → List (EvaluationQuery × ℕ)
    → EvalRunRow
    → (ℕ → AnswerResponse → JudgeRequest)
    → Task StageEnd
judge_through e items row render = results_of e row.id >>= judge_all e items row render

abbrev pub judge_stage : EvaluationRunner → List (EvaluationQuery × ℕ) → EvalRunRow → Task StageEnd
judge_stage e items row =
    if in_state judging row then the_renderer e >>= judge_through e items row else on row

abbrev pub scoring_stage : EvalRunRow → Task EvalRunRow
scoring_stage row = if in_state scoring row then enter_state row.id completed else pure row

-- the next stage, unless the run was returned
abbrev pub unless_ended : (EvalRunRow → Task EvalRunRow) → StageEnd → Task EvalRunRow
unless_ended next (returns row) = pure row
unless_ended next (goes_on row) = next row
