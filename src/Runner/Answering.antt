-- ===== src/Runner/Answering.antt =====
-- The generation and the judge stage of a run (src/ragops/evaluation/runner.py).
use rag_eval_platform.Prelude.{
  ℕ, Bool, true, false, not, ◌&&◌, ◌||◌, Option, none, some, List, [], ◌∷◌, ◌++◌, ◌==◌, is_some,
  is_nil, if◌then◌else◌, filter, contains, Result, ok, err, pure, raise, or_raise, ◌>>=◌, ◌>>◌,
  Error, value_error, key_error, runtime_error,
}
use rag_eval_platform.Prelude.Dict.{Dict, lookup, insert, keys}
use rag_eval_platform.Runs.{EvalRunSpec}
use rag_eval_platform.Runs.Store.{JudgeVerdict, EvalRunRow, EvalQueryResultRow}
use rag_eval_platform.Runs.Results.{update_answer, update_judges}
use rag_eval_platform.Generation.{
  SciFactLabel, GenerationOutcome, outcome_ok, abstained, citation_error, AnswerResponse, Raised,
  failed as failure, broke,
}
use rag_eval_platform.Answers.{AnswerRequest}
use rag_eval_platform.Metrics.{ScoreOps}
use rag_eval_platform.Metrics.Answers.{
  AnswerMetricScores, compute_answer_metrics, scifact_gold_label,
  compute_scifact_rationale_precision, label_name, predicts, float_of,
}
use rag_eval_platform.Runs.Datasets.{EvaluationQuery, QueryResult}
use rag_eval_platform.Runner.{
  JudgeRequest, EvaluationRunner, Task, in_transaction, ask, lift, get_run, unless_cancelled,
}

-- `persisted[(query_id, variant)]`: of two results with one key, the last
abbrev is_persisted : ℕ → ℕ → QueryResult → Bool
is_persisted external_id variant r = r.0 == external_id && r.1.variant == variant

abbrev pub persisted_at : ℕ → ℕ → List QueryResult → Option EvalQueryResultRow
persisted_at external_id variant [] = none
persisted_at external_id variant (r ∷ results) = elim (persisted_at external_id variant results) [
  | some later ↦ some later
  | none ↦ if is_persisted external_id variant r then some r.1 else none
]

abbrev pub persisted : List QueryResult → EvaluationQuery → ℕ → Task EvalQueryResultRow
persisted results query variant =
    or_raise (persisted_at query.external_id variant results) key_error

-- the names "default" and "scifact"
abbrev default_profile : ℕ
default_profile = 1

abbrev scifact : ℕ
scifact = 2

abbrev profile_or_default : Option ℕ → ℕ
profile_or_default none = default_profile
profile_or_default (some profile) = if profile == 0 then default_profile else profile

abbrev pub answer_request : EvalRunSpec → EvaluationQuery → ℕ → AnswerRequest
answer_request spec query variant = record {
  query = query.text;
  dataset = spec.dataset;
  variant = variant;
  generator_profile = profile_or_default spec.generator_profile;
  prompt_version = spec.generation_prompt_version;
}

-- the keys of the answer scores follow those of the retrieval scores
abbrev answer_scores : AnswerMetricScores → Dict ℕ
answer_scores s =
    (4, s.citation_validity) ∷ (5, s.context_precision) ∷ (6, s.abstention_correctness) ∷ []

-- the scores of an answer, and the gold label of a SciFact query
abbrev Scored : Type 0
Scored = Dict ℕ × Option ℕ

abbrev label_accuracy : ScoreOps → AnswerResponse → SciFactLabel → ℕ
label_accuracy ops answer gold = float_of ops (predicts gold answer.verification_label)

abbrev with_precision : Dict ℕ → ℕ → SciFactLabel → Result Error ℕ → Result Error Scored
with_precision scores accuracy gold (err x) = err x
with_precision scores accuracy gold (ok precision) =
    ok (insert 8 precision (insert 7 accuracy scores), some (label_name gold))

abbrev with_label :
    ScoreOps
    → AnswerResponse
    → EvaluationQuery
    → Dict ℕ
    → Result Error SciFactLabel
    → Result Error Scored
with_label ops answer query scores (err x) = err x
with_label ops answer query scores (ok gold) =
    with_precision scores (label_accuracy ops answer gold) gold
      (compute_scifact_rationale_precision ops answer query.metadata)

abbrev pub score_answer :
    ScoreOps → EvalRunSpec → EvaluationQuery → AnswerResponse → Result Error Scored
score_answer ops spec query answer =
    let scores : Dict ℕ = answer_scores (compute_answer_metrics ops answer query.qrels) in
    if spec.dataset == scifact
    then with_label ops answer query scores (scifact_gold_label query.metadata)
    else ok (scores, none)

abbrev pub store_answer : ℕ → EvaluationQuery → ℕ → AnswerResponse → Scored → Task Unit
store_answer run_id query variant answer scored =
    in_transaction (λ now. update_answer run_id query.id variant answer scored.0 scored.1)

abbrev pub take_answer :
    EvaluationRunner → EvalRunRow → EvaluationQuery → ℕ → AnswerResponse → Task (Option EvalRunRow)
take_answer e row query variant answer =
    lift (score_answer e.ops row.spec query answer)
    >>= store_answer row.id query variant answer
    >> pure none

abbrev pub request_answer :
    EvaluationRunner
    → EvalRunRow
    → EvaluationQuery
    → ℕ
    → (ℕ → AnswerRequest → Result Error AnswerResponse)
    → Task (Option EvalRunRow)
request_answer e row query variant service =
    ask (λ now. service now (answer_request row.spec query variant))
    >>= take_answer e row query variant

-- the assertion that there is a service, as a runtime error
abbrev pub the_service : EvaluationRunner → Task (ℕ → AnswerRequest → Result Error AnswerResponse)
the_service e = or_raise e.answer_service runtime_error

-- one query and variant of the generation stage
abbrev pub answer_missing :
    EvaluationRunner
    → EvalRunRow
    → EvaluationQuery
    → ℕ
    → (ℕ → AnswerRequest → Result Error AnswerResponse)
    → EvalQueryResultRow
    → Task (Option EvalRunRow)
answer_missing e row query variant service result =
    if is_some result.generation_record
    then pure none
    else (get_run row.id >>= λ (current : EvalRunRow).
        unless_cancelled current (request_answer e row query variant service))

abbrev pub answer_one :
    EvaluationRunner
    → EvalRunRow
    → (ℕ → AnswerRequest → Result Error AnswerResponse)
    → List QueryResult
    → EvaluationQuery
    → ℕ
    → Task (Option EvalRunRow)
answer_one e row service results query variant =
    persisted results query variant >>= answer_missing e row query variant service

-- the queries and variants in the order of the two loops
abbrev with_query : {A : Type 0} → A → List ℕ → List (A × ℕ)
with_query query [] = []
with_query query (v ∷ variants) = (query, v) ∷ with_query query variants

abbrev pub work_items : {A : Type 0} → List A → List ℕ → List (A × ℕ)
work_items [] variants = []
work_items (q ∷ queries) variants = with_query q variants ++ work_items queries variants

-- a loop that an early return of a round ends
abbrev pub unless_returned : Option EvalRunRow → Task (Option EvalRunRow) → Task (Option EvalRunRow)
unless_returned (some row) rest = pure (some row)
unless_returned none rest = rest

unfoldable pub for_each :
    (EvaluationQuery → ℕ → Task (Option EvalRunRow))
    → List (EvaluationQuery × ℕ)
    → Task (Option EvalRunRow)
for_each round [] = pure none
for_each round ((query, variant) ∷ items) = round query variant >>= λ (early : Option EvalRunRow).
    unless_returned early (for_each round items)

-- what the judges answer, profile by profile
abbrev pub as_error : {A : Type 0} → Result Raised A → Result Error A
as_error (ok a) = ok a
as_error (err (failure f)) = err runtime_error
as_error (err (broke x)) = err x

abbrev pub find_judge : EvaluationRunner → ℕ → Task (ℕ → JudgeRequest → Result Raised JudgeVerdict)
find_judge e profile = or_raise (lookup profile e.judges) key_error

abbrev pub judge_with :
    JudgeRequest → (ℕ → JudgeRequest → Result Raised JudgeVerdict) → Task JudgeVerdict
judge_with request judge = ask (λ now. as_error (judge now request))

-- the dict of the verdicts, filled profile by profile
unfoldable pub collect_verdicts :
    EvaluationRunner → JudgeRequest → List ℕ → Dict JudgeVerdict → Task (Dict JudgeVerdict)
unfolding ask
collect_verdicts e request [] verdicts = pure verdicts
collect_verdicts e request (profile ∷ profiles) verdicts =
    find_judge e profile >>= judge_with request >>= λ (verdict : JudgeVerdict).
    collect_verdicts e request profiles (insert profile verdict verdicts)

abbrev pub store_verdicts : ℕ → EvaluationQuery → ℕ → Dict JudgeVerdict → Task (Option EvalRunRow)
store_verdicts run_id query variant verdicts =
    in_transaction (λ now. update_judges run_id query.id variant verdicts) >> pure none

abbrev pub is_judged_outcome : GenerationOutcome → Bool
is_judged_outcome outcome_ok = true
is_judged_outcome abstained = true
is_judged_outcome citation_error = true
is_judged_outcome _ = false

abbrev pub missing_profiles : EvalRunSpec → EvalQueryResultRow → List ℕ
missing_profiles spec result =
    filter (λ profile. not (contains profile (keys result.judge_records))) spec.judge_profiles

abbrev pub judge_answer :
    EvaluationRunner
    → EvalRunRow
    → (ℕ → AnswerResponse → JudgeRequest)
    → EvaluationQuery
    → ℕ
    → EvalQueryResultRow
    → Option AnswerResponse
    → Task (Option EvalRunRow)
judge_answer e row render query variant result none = raise value_error
judge_answer e row render query variant result (some answer) =
    if not (is_judged_outcome answer.outcome) || is_nil (missing_profiles row.spec result)
    then pure none
    else (collect_verdicts e (render query.text answer) (missing_profiles row.spec result) []
        >>= store_verdicts row.id query variant)

abbrev pub judge_result :
    EvaluationRunner
    → EvalRunRow
    → (ℕ → AnswerResponse → JudgeRequest)
    → EvaluationQuery
    → ℕ
    → EvalQueryResultRow
    → Task (Option EvalRunRow)
judge_result e row render query variant result =
    judge_answer e row render query variant result result.generation_record

-- one query and variant of the judge stage
abbrev pub judge_one :
    EvaluationRunner
    → EvalRunRow
    → (ℕ → AnswerResponse → JudgeRequest)
    → List QueryResult
    → EvaluationQuery
    → ℕ
    → Task (Option EvalRunRow)
judge_one e row render results query variant =
    persisted results query variant >>= judge_result e row render query variant

abbrev pub the_renderer : EvaluationRunner → Task (ℕ → AnswerResponse → JudgeRequest)
the_renderer e = or_raise e.judge_renderer runtime_error
