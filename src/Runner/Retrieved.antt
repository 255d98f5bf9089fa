-- ===== src/Runner/Retrieved.antt =====
-- The retrieval stage of the runner (src/ragops/evaluation/runner.py), by the rules for tasks.
use rag_eval_platform.Prelude.{
  ℕ, ◌≤◌, ◌≡◌, ap, subst, inl, inr, not, Option, none, some, List, [], ◌∷◌, arith, ◌==◌, Bool-cases,
  All, ok, pure, ◌>>=◌, ◌>>◌, raise_if, value_error,
}
use rag_eval_platform.Prelude.Dict.{Dict}
use rag_eval_platform.Runs.{cancelled, place}
use rag_eval_platform.Runs.Store.{Database, EvalRunRow}
use rag_eval_platform.Runs.Results.{completed_work}
use rag_eval_platform.Runs.Datasets.{EvaluationQuery}
use rag_eval_platform.Runner.{EvaluationRunner, get_run, enter_state, work_done}
use rag_eval_platform.Runner.Execution.{
  StageEnd, returns, goes_on, in_state, unpinned, after_retrieval, on, leave_retrieval,
  end_retrieval, work_of, retrieve_missing,
}
use rag_eval_platform.Runs.Store.Rows.{RunGrows}
use rag_eval_platform.Runs.Lifecycle.{same_state_iff}
use rag_eval_platform.Runner.Triples.{Triple, Grows, then_rule, weaken_rule, if_rule, call_rule}
use rag_eval_platform.Runner.Facts.{Exists}
use rag_eval_platform.Runner.Rules.{K, K-Grows, falls, enter_state_rule, get_run_rule}
use rag_eval_platform.Runner.Progress.{
  HasResult, HasResult-Grows, Done, Done-Grows, completed_work-Done,
}
use rag_eval_platform.Runner.Loops.{raise_if_keeps, AllResults}
use rag_eval_platform.Runner.Queries.{Looped, evaluate_queries_rule}
use rag_eval_platform.Runner.Stages.{Covered, place_of}

module _ (e : EvaluationRunner) (i : ℕ) (first : EvalRunRow) (F : Database → Type 0)
    (F-Grows : Grows F) (row : EvalRunRow) (queries : List EvaluationQuery) where
  -- the fact that the stage adds
  abbrev pub WithResults : Database → Type 0
  WithResults db = F db × Covered row.id row.spec.variants queries db

  Covered-Grows :
      (variants : List ℕ) (qs : List EvaluationQuery) → Grows (Covered row.id variants qs)
  Covered-Grows variants [] a b g h = tt
  Covered-Grows variants (q ∷ qs) a b g h = (each variants h.0, Covered-Grows variants qs a b g h.1)
    where
      each :
          (vs : List ℕ)
          → All (λ v. HasResult row.id q.id v a) vs
          → All (λ v. HasResult row.id q.id v b) vs
      each [] h = tt
      each (v ∷ vs) h = (HasResult-Grows row.id q.id v a b g h.0, each vs h.1)

  pub WithResults-Grows : Grows WithResults
  WithResults-Grows a b g p = (F-Grows a b g p.0, Covered-Grows row.spec.variants queries a b g p.1)

  abbrev Here : Database → Type 0
  Here = K i first F row

  -- the stage ends with the run cancelled, or with all results there
  abbrev pub Retrieved : StageEnd → Database → Type 0
  Retrieved (returns r) db = K i first F r db × (r.state ≡ cancelled)
  Retrieved (goes_on r) db = K i first WithResults r db × (4 ≤ place r.state)

  work_done_rule :
      Triple Here (work_done row.id) (λ done db. Here db × Done row.id done db) (Exists i)
  work_done_rule =
      call_rule (Exists i) Here (falls i first F F-Grows row) (K-Grows i first F F-Grows row)
        (λ done db. Here db × Done row.id done db)
        (λ now (db : Database). (ok (completed_work row.id db.results), db))
        (λ now db done db' p h.
          let stays : db ≡ db' = ap (λ p. p.1) h in
          let same : completed_work row.id db.results ≡ done = cc (h) in
          (
            subst Here stays p,
            subst (λ (d : List (ℕ × ℕ)). Done row.id d db') same
                (subst (λ (d : Database). Done row.id (completed_work row.id db.results) d) stays
                  (completed_work-Done row.id db)),
          ))

  after_place : (r : EvalRunRow) → 4 ≤ place (after_retrieval r)
  after_place r = elim (Bool-cases r.spec.generation_enabled) [
    | inl k ↦ rw k (omega arith)
    | inr k ↦ rw k (omega arith)
  ]

  module _ (total : ℕ) where
    leave_retrieval_rule :
        (r : EvalRunRow)
        → Triple (K i first WithResults r) (leave_retrieval total r) Retrieved (Exists i)
    leave_retrieval_rule r =
        if_rule (Exists i) P Retrieved (in_state cancelled r) (pure (returns r))
          (raise_if (not (r.completed_queries == total)) value_error
            >> raise_if (unpinned r) value_error
            >> enter_state r.id (after_retrieval r)
            >>= on)
          (λ k w p. ((p.0, p.1.0), same_state_iff r.state cancelled k))
          (λ k.
            then_rule (Exists i) P Entered Retrieved
              (raise_if (not (r.completed_queries == total)) value_error
                >> raise_if (unpinned r) value_error
                >> enter_state r.id (after_retrieval r))
              on
              (then_rule (Exists i) P (λ u. P) Entered
                (raise_if (not (r.completed_queries == total)) value_error
                  >> raise_if (unpinned r) value_error)
                (λ u. enter_state r.id (after_retrieval r))
                (then_rule (Exists i) P (λ u. P) (λ u. P)
                  (raise_if (not (r.completed_queries == total)) value_error)
                  (λ u. raise_if (unpinned r) value_error)
                  (raise_if_keeps (Exists i) P down (not (r.completed_queries == total))
                    value_error)
                  (λ u. raise_if_keeps (Exists i) P down (unpinned r) value_error))
                (λ u. enter_state_rule i first WithResults WithResults-Grows r (after_retrieval r)))
              (λ s w p.
                (p.0, omega (arith, place_of s.state (after_retrieval r) p.1.1, after_place r))))
      where
        P : Database → Type 0
        P = K i first WithResults r

        down : (db : Database) → P db → Exists i db
        down = falls i first WithResults WithResults-Grows r

        Entered : EvalRunRow → Database → Type 0
        Entered s db = K i first WithResults s db × (RunGrows r s × (s.state ≡ after_retrieval r))

    end_retrieval_rule :
        (done : List (ℕ × ℕ)) (hashes : Dict ℕ) (early : Option EvalRunRow)
        → Triple
            (Looped i first row
              (λ db. F db × Done row.id done db)
              (AllResults (work_of row hashes done) queries)
              early)
            (end_retrieval row.id total early)
            Retrieved
            (Exists i)
    end_retrieval_rule done hashes (some r) = λ w p. ((p.0.0, p.0.1.0), p.1)
    end_retrieval_rule done hashes none =
        weaken_rule (Exists i) (K i first WithResults row)
          (Looped i first row (λ db. F db × Done row.id done db)
            (AllResults (work_of row hashes done) queries) none)
          Retrieved Retrieved (get_run row.id >>= leave_retrieval total)
          (λ db p. (p.0.0, (p.0.1.0, p.1))) (λ s db p. p)
          (then_rule (Exists i) (K i first WithResults row)
            (λ r db. K i first WithResults r db × RunGrows row r) Retrieved (get_run row.id)
            (leave_retrieval total) (get_run_rule i first WithResults WithResults-Grows row)
            (λ r.
              weaken_rule (Exists i) (K i first WithResults r)
                (λ db. K i first WithResults r db × RunGrows row r) Retrieved Retrieved
                (leave_retrieval total r) (λ db p. p.0) (λ s db p. p) (leave_retrieval_rule r)))

    -- In the state RETRIEVING the stage gets all results, unless the run is cancelled.
    pub retrieving_rule :
        (hashes pins : Dict ℕ)
        → Triple Here
            (work_done row.id
              >>= retrieve_missing e queries hashes pins row
              >>= end_retrieval row.id total)
            Retrieved
            (Exists i)
    retrieving_rule hashes pins =
        then_rule (Exists i) Here After' Retrieved
          (work_done row.id >>= retrieve_missing e queries hashes pins row)
          (end_retrieval row.id total)
          (then_rule (Exists i) Here (λ done db. Here db × Done row.id done db) After'
            (work_done row.id) (retrieve_missing e queries hashes pins row) work_done_rule
            (λ done.
              weaken_rule (Exists i) (Known_done done) (λ db. Here db × Done row.id done db)
                (Loops done) After' (retrieve_missing e queries hashes pins row done)
                (λ db p. (p.0.0, (p.0.1, p.1))) (λ early db p. (done, p))
                (evaluate_queries_rule e i first row hashes done queries
                  (λ db. F db × Done row.id done db)
                  (λ a b g p. (F-Grows a b g p.0, Done-Grows row.id done a b g p.1)) (λ db p. p.1)
                  pins)))
          (λ early w p. end_retrieval_rule p.0 hashes early w p.1)
      where
        Known_done : List (ℕ × ℕ) → Database → Type 0
        Known_done done = K i first (λ db. F db × Done row.id done db) row

        Loops : List (ℕ × ℕ) → Option EvalRunRow → Database → Type 0
        Loops done =
            Looped i first row (λ db. F db × Done row.id done db)
              (AllResults (work_of row hashes done) queries)

        After' : Option EvalRunRow → Database → Type 0
        After' early db = (done : List (ℕ × ℕ)) × Loops done early db
