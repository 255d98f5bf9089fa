-- ===== src/Runner/Rounds.antt =====
-- The generation and the judge loop of the runner (src/ragops/evaluation/runner.py), by the rules for
-- tasks.
use rag_eval_platform.Prelude.{
  ℕ, not, ◌||◌, Option, none, some, List, [], ◌∷◌, is_some, is_nil, Result, pure, ◌>>=◌, Error,
  key_error,
}
use rag_eval_platform.Prelude.Dict.{Dict, lookup, insert}
use rag_eval_platform.Runs.Store.{JudgeVerdict, Database, EvalRunRow, EvalQueryResultRow}
use rag_eval_platform.Runs.Results.{update_answer, update_judges}
use rag_eval_platform.Generation.{AnswerResponse}
use rag_eval_platform.Answers.{AnswerRequest}
use rag_eval_platform.Runs.Datasets.{EvaluationQuery, QueryResult}
use rag_eval_platform.Runner.{
  JudgeRequest, EvaluationRunner, Task, in_transaction, ask, lift, get_run, unless_cancelled,
}
use rag_eval_platform.Runner.Answering.{
  answer_one, judge_one, for_each, persisted, answer_missing, request_answer, take_answer,
  score_answer, store_answer, unless_returned, collect_verdicts, find_judge, judge_with,
  store_verdicts, judge_answer, judge_result, missing_profiles, is_judged_outcome, persisted_at,
  as_error, answer_request,
}
use rag_eval_platform.Runs.Store.Evolution.Steps.{update_answer-Evolves, update_judges-Evolves}
use rag_eval_platform.Runner.Triples.{Triple, Grows, then_rule, if_rule}
use rag_eval_platform.Runner.Facts.{Exists}
use rag_eval_platform.Runner.Rules.{K, K-Grows, falls}
use rag_eval_platform.Runner.Loops.{or_raise_keeps, lift_keeps, ask_keeps, call_keeps}
use rag_eval_platform.Runner.Queries.{Looped, unless_cancelled_rule}

module _ (e : EvaluationRunner) (i : ℕ) (first row : EvalRunRow) (F : Database → Type 0)
    (F-Grows : Grows F) where
  -- a loop that adds no fact
  abbrev pub Went : Option EvalRunRow → Database → Type 0
  Went = Looped i first row F (λ db. Unit {0})

  abbrev Here : Database → Type 0
  Here = K i first F row

  down : (db : Database) → Here db → Exists i db
  down = falls i first F F-Grows row

  Here-Grows : Grows Here
  Here-Grows = K-Grows i first F F-Grows row

  goes : {A : Type 0} (a : A) → Triple Here (pure {A = Option EvalRunRow} none) Went (Exists i)
  goes a w p = (p, tt)

  pub for_each_rule :
      (round : EvaluationQuery → ℕ → Task (Option EvalRunRow))
      → ((q : EvaluationQuery) (v : ℕ) → Triple Here (round q v) Went (Exists i))
      → (items : List (EvaluationQuery × ℕ)) → Triple Here (for_each round items) Went (Exists i)
  unfolding for_each
  for_each_rule round each [] = λ w p. (p, tt)
  for_each_rule round each ((q, v) ∷ items) =
      then_rule (Exists i) Here Went Went (round q v)
        (λ (early : Option EvalRunRow). unless_returned early (for_each round items)) (each q v)
        (λ early. after early (for_each_rule round each items))
    where
      after :
          (early : Option EvalRunRow)
          → Triple Here (for_each round items) Went (Exists i)
          → Triple (Went early) (unless_returned early (for_each round items)) Went (Exists i)
      after none h w p = h w p.0
      after (some r) h w p = p

  -- the verdicts are collected without a transaction
  collect_rule :
      (request : JudgeRequest) (profiles : List ℕ) (verdicts : Dict JudgeVerdict)
      → Triple Here (collect_verdicts e request profiles verdicts) (λ v. Here) (Exists i)
  unfolding collect_verdicts
  collect_rule request [] verdicts = λ w p. p
  collect_rule request (profile ∷ profiles) verdicts =
      then_rule (Exists i) Here (λ v. Here) (λ v. Here)
        (find_judge e profile >>= judge_with request)
        (λ (verdict : JudgeVerdict).
          collect_verdicts e request profiles (insert profile verdict verdicts))
        (then_rule (Exists i) Here (λ j. Here) (λ v. Here) (find_judge e profile)
          (judge_with request)
          (or_raise_keeps (Exists i) Here down (lookup profile e.judges) key_error)
          (λ judge.
            ask_keeps (Exists i) Here down Here-Grows (λ now. as_error (judge now request))))
        (λ verdict. collect_rule request profiles (insert profile verdict verdicts))

  module _ (q : EvaluationQuery) (v : ℕ) where
    request_answer_rule :
        (service : ℕ → AnswerRequest → Result Error AnswerResponse)
        → Triple Here (request_answer e row q v service) Went (Exists i)
    request_answer_rule service =
        then_rule (Exists i) Here (λ answer. Here) Went
          (ask (λ now. service now (answer_request row.spec q v))) (take_answer e row q v)
          (ask_keeps (Exists i) Here down Here-Grows
            (λ now. service now (answer_request row.spec q v)))
          (λ answer.
            then_rule (Exists i) Here (λ u. Here) Went
              (lift (score_answer e.ops row.spec q answer) >>= store_answer row.id q v answer)
              (λ u. pure none)
              (then_rule (Exists i) Here (λ s. Here) (λ u. Here)
                (lift (score_answer e.ops row.spec q answer)) (store_answer row.id q v answer)
                (lift_keeps (Exists i) Here down (score_answer e.ops row.spec q answer))
                (λ s.
                  call_keeps (Exists i) Here down Here-Grows
                    (λ now. update_answer row.id q.id v answer s.0 s.1)
                    (λ now db. update_answer-Evolves row.id q.id v answer s.0 s.1 db)))
              goes)

    pub answer_one_rule :
        (service : ℕ → AnswerRequest → Result Error AnswerResponse) (results : List QueryResult)
        → Triple Here (answer_one e row service results q v) Went (Exists i)
    answer_one_rule service results =
        then_rule (Exists i) Here (λ r. Here) Went (persisted results q v)
          (answer_missing e row q v service)
          (or_raise_keeps (Exists i) Here down (persisted_at q.external_id v results) key_error)
          (λ r.
            if_rule (Exists i) Here Went (is_some r.generation_record) (pure none)
              (get_run row.id >>= λ (current : EvalRunRow).
                unless_cancelled current (request_answer e row q v service))
              (λ k. goes r)
              (λ k.
                unless_cancelled_rule i first row F (λ db. Unit {0})
                  (request_answer e row q v service) F-Grows (request_answer_rule service)))

    judge_answer_rule :
        (render : ℕ → AnswerResponse → JudgeRequest) (r : EvalQueryResultRow)
        (o : Option AnswerResponse)
        → Triple Here (judge_answer e row render q v r o) Went (Exists i)
    judge_answer_rule render r none = λ w p. down w.db p
    judge_answer_rule render r (some answer) =
        if_rule (Exists i) Here Went
          (not (is_judged_outcome answer.outcome) || is_nil (missing_profiles row.spec r))
          (pure none)
          (collect_verdicts e (render q.text answer) (missing_profiles row.spec r) []
            >>= store_verdicts row.id q v)
          (λ k. goes r)
          (λ k.
            then_rule (Exists i) Here (λ verdicts. Here) Went
              (collect_verdicts e (render q.text answer) (missing_profiles row.spec r) [])
              (store_verdicts row.id q v)
              (collect_rule (render q.text answer) (missing_profiles row.spec r) [])
              (λ verdicts.
                then_rule (Exists i) Here (λ u. Here) Went
                  (in_transaction (λ now. update_judges row.id q.id v verdicts)) (λ u. pure none)
                  (call_keeps (Exists i) Here down Here-Grows
                    (λ now. update_judges row.id q.id v verdicts)
                    (λ now db. update_judges-Evolves row.id q.id v verdicts db))
                  goes))

    pub judge_one_rule :
        (render : ℕ → AnswerResponse → JudgeRequest) (results : List QueryResult)
        → Triple Here (judge_one e row render results q v) Went (Exists i)
    judge_one_rule render results =
        then_rule (Exists i) Here (λ r. Here) Went (persisted results q v)
          (judge_result e row render q v)
          (or_raise_keeps (Exists i) Here down (persisted_at q.external_id v results) key_error)
          (λ r. judge_answer_rule render r r.generation_record)
