-- ===== src/Runner/Later.antt =====
-- The stages after the retrieval (src/ragops/evaluation/runner.py), by the rules for tasks.
use rag_eval_platform.Prelude.{
  ℕ, ◌≤◌, ◌≡◌, inl, inr, Option, none, some, List, arith, is_nil, Bool-cases, Result, ok, pure,
  ◌>>=◌, Error, runtime_error,
}
use rag_eval_platform.Runs.{EvalRunState, generating, judging, scoring, completed, cancelled, place}
use rag_eval_platform.Runs.Store.{Database, EvalRunRow}
use rag_eval_platform.Runs.Datasets.{EvaluationQuery, QueryResult, load_results}
use rag_eval_platform.Runner.{EvaluationRunner, Task, lift, enter_state, results_of}
use rag_eval_platform.Runner.Selection.{select_evaluation_queries}
use rag_eval_platform.Runner.Answering.{
  answer_one, judge_one, the_service, the_renderer, for_each, work_items,
}
use rag_eval_platform.Runner.Execution.{
  StageEnd, returns, goes_on, in_state, on, generation_variants, select_generation, end_loop,
  after_generation, answer_with, generation_stage, judge_through, judge_stage, scoring_stage,
  unless_ended,
}
use rag_eval_platform.Runner.Running.{judge_and_score, generate_and_judge, after_retrieving}
use rag_eval_platform.Runs.Store.Rows.{RunGrows}
use rag_eval_platform.Runs.Store.Evolution.{Evolves-refl}
use rag_eval_platform.Runner.Triples.{Triple, Grows, then_rule, weaken_rule, if_rule}
use rag_eval_platform.Runner.Facts.{Exists}
use rag_eval_platform.Runner.Rules.{K, K-Grows, falls, enter_state_rule}
use rag_eval_platform.Runner.Loops.{or_raise_keeps, lift_keeps, call_keeps}
use rag_eval_platform.Runner.Rounds.{Went, for_each_rule, answer_one_rule, judge_one_rule}
use rag_eval_platform.Runner.Stages.{place_of, Staged}

module _ (e : EvaluationRunner) (i : ℕ) (first : EvalRunRow) (F : Database → Type 0)
    (F-Grows : Grows F) where
  -- the run is finished
  abbrev pub Over : EvalRunRow → Database → Type 0
  Over r db = K i first F r db × (7 ≤ place r.state)

  module _ (row : EvalRunRow) where
    abbrev Here : Database → Type 0
    Here = K i first F row

    down : (db : Database) → Here db → Exists i db
    down = falls i first F F-Grows row

    Here-Grows : Grows Here
    Here-Grows = K-Grows i first F F-Grows row

    end_loop_rule :
        (k : ℕ) (next : EvalRunState)
        → k ≤ place next
        → (early : Option EvalRunRow)
        → Triple
            (Went e i first row F F-Grows early)
            (end_loop row.id next early)
            (Staged e i first F F-Grows k)
            (Exists i)
    end_loop_rule k next h (some r) = λ w p. p
    end_loop_rule k next h none =
        weaken_rule (Exists i) Here (Went e i first row F F-Grows none)
          (Staged e i first F F-Grows k) (Staged e i first F F-Grows k)
          (enter_state row.id next >>= on) (λ db p. p.0) (λ s db p. p)
          (then_rule (Exists i) Here
            (λ r db. K i first F r db × (RunGrows row r × (r.state ≡ next)))
            (Staged e i first F F-Grows k) (enter_state row.id next) on
            (enter_state_rule i first F F-Grows row next)
            (λ r w p. (p.0, omega (arith, place_of r.state next p.1.1))))

    read_results_rule : Triple Here (results_of e row.id) (λ results. Here) (Exists i)
    read_results_rule =
        call_keeps (Exists i) Here down Here-Grows
          (λ now (db : Database). (ok (load_results e.collates e.tables row.id db.results), db))
          (λ now db. Evolves-refl db)

    -- a loop over the work items between the read of the results and the next state
    loop_rule :
        (k : ℕ) (next : EvalRunState) (items : List (EvaluationQuery × ℕ))
        (round : List QueryResult → EvaluationQuery → ℕ → Task (Option EvalRunRow))
        → k ≤ place next
        → ((results : List QueryResult) (q : EvaluationQuery) (v : ℕ)
            → Triple Here (round results q v) (Went e i first row F F-Grows) (Exists i))
        → Triple Here
            (results_of e row.id >>= λ (results : List QueryResult).
              for_each (round results) items >>= end_loop row.id next)
            (Staged e i first F F-Grows k)
            (Exists i)
    loop_rule k next items round h each =
        then_rule (Exists i) Here (λ results. Here) (Staged e i first F F-Grows k)
          (results_of e row.id) (λ results. for_each (round results) items >>= end_loop row.id next)
          read_results_rule
          (λ results.
            then_rule (Exists i) Here (Went e i first row F F-Grows) (Staged e i first F F-Grows k)
              (for_each (round results) items) (end_loop row.id next)
              (for_each_rule e i first row F F-Grows (round results) (each results) items)
              (end_loop_rule k next h))

    generation_place : 5 ≤ place (after_generation row)
    generation_place = elim (Bool-cases (is_nil row.spec.judge_profiles)) [
      | inl k ↦ rw k (omega arith)
      | inr k ↦ rw k (omega arith)
    ]

    generation_stage_rule :
        (items : List (EvaluationQuery × ℕ))
        → 4 ≤ place row.state
        → Triple Here (generation_stage e items row) (Staged e i first F F-Grows 5) (Exists i)
    generation_stage_rule items h =
        if_rule (Exists i) Here (Staged e i first F F-Grows 5) (in_state generating row)
          (the_service e >>= answer_with e items row) (on row)
          (λ k.
            then_rule (Exists i) Here (λ s. Here) (Staged e i first F F-Grows 5) (the_service e)
              (answer_with e items row)
              (or_raise_keeps (Exists i) Here down e.answer_service runtime_error)
              (λ service.
                loop_rule 5 (after_generation row) items
                  (λ results. answer_one e row service results) generation_place
                  (λ results q v. answer_one_rule e i first row F F-Grows q v service results)))
          (λ k w p. (p, ground (arith, k)))

    judge_stage_rule :
        (items : List (EvaluationQuery × ℕ))
        → 5 ≤ place row.state
        → Triple Here (judge_stage e items row) (Staged e i first F F-Grows 6) (Exists i)
    judge_stage_rule items h =
        if_rule (Exists i) Here (Staged e i first F F-Grows 6) (in_state judging row)
          (the_renderer e >>= judge_through e items row) (on row)
          (λ k.
            then_rule (Exists i) Here (λ s. Here) (Staged e i first F F-Grows 6) (the_renderer e)
              (judge_through e items row)
              (or_raise_keeps (Exists i) Here down e.judge_renderer runtime_error)
              (λ render.
                loop_rule 6 scoring items (λ results. judge_one e row render results) (omega arith)
                  (λ results q v. judge_one_rule e i first row F F-Grows q v render results)))
          (λ k w p. (p, ground (arith, k)))

    scoring_stage_rule : 6 ≤ place row.state → Triple Here (scoring_stage row) Over (Exists i)
    scoring_stage_rule h =
        if_rule (Exists i) Here Over (in_state scoring row) (enter_state row.id completed)
          (pure row)
          (λ k.
            weaken_rule (Exists i) Here Here
              (λ r db. K i first F r db × (RunGrows row r × (r.state ≡ completed))) Over
              (enter_state row.id completed) (λ db p. p)
              (λ r db p. (p.0, omega (arith, place_of r.state completed p.1.1)))
              (enter_state_rule i first F F-Grows row completed))
          (λ k w p. (p, ground (arith, k)))

  -- after a stage: a cancelled run is returned, any other goes on
  unless_ended_rule :
      (k : ℕ) (next : EvalRunRow → Task EvalRunRow)
      → ((r : EvalRunRow) → k ≤ place r.state → Triple (K i first F r) (next r) Over (Exists i))
      → (st : StageEnd)
      → Triple (Staged e i first F F-Grows k st) (unless_ended next st) Over (Exists i)
  unless_ended_rule k next h (returns r) =
      λ w p. (p.0, omega (arith, place_of r.state cancelled p.1))
  unless_ended_rule k next h (goes_on r) = λ w p. h r p.1 w p.0

  judge_and_score_rule :
      (items : List (EvaluationQuery × ℕ)) (row : EvalRunRow)
      → 5 ≤ place row.state
      → Triple (K i first F row) (judge_and_score e items row) Over (Exists i)
  judge_and_score_rule items row h =
      then_rule (Exists i) (K i first F row) (Staged e i first F F-Grows 6) Over
        (judge_stage e items row) (unless_ended scoring_stage) (judge_stage_rule row items h)
        (unless_ended_rule 6 scoring_stage scoring_stage_rule)

  generate_and_judge_rule :
      (row : EvalRunRow) (items : List (EvaluationQuery × ℕ))
      → 4 ≤ place row.state
      → Triple (K i first F row) (generate_and_judge e row items) Over (Exists i)
  generate_and_judge_rule row items h =
      then_rule (Exists i) (K i first F row) (Staged e i first F F-Grows 5) Over
        (generation_stage e items row) (unless_ended (judge_and_score e items))
        (generation_stage_rule row items h)
        (unless_ended_rule 5 (judge_and_score e items) (judge_and_score_rule items))

  -- From the end of the retrieval on, the runner finishes the run or raises.
  pub after_retrieving_rule :
      (queries : List EvaluationQuery) (row : EvalRunRow)
      → 4 ≤ place row.state
      → Triple (K i first F row) (after_retrieving e queries row) Over (Exists i)
  after_retrieving_rule queries row h =
      then_rule (Exists i) (K i first F row) (λ items. K i first F row) Over
        (select_generation e row queries) (generate_and_judge e row)
        (then_rule (Exists i) (K i first F row) (λ s. K i first F row) (λ items. K i first F row)
          (lift sampled) (λ sample. pure (work_items sample (generation_variants row.spec)))
          (lift_keeps (Exists i) (K i first F row) (falls i first F F-Grows row) sampled)
          (λ s w p. p))
        (λ items. generate_and_judge_rule row items h)
    where
      sampled : Result Error (List EvaluationQuery)
      sampled =
          select_evaluation_queries e.text_lt e.digest queries row.spec.generation_sample_size
            row.spec.seed
