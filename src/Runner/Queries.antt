-- ===== src/Runner/Queries.antt =====
-- The loop over the queries (src/ragops/evaluation/runner.py).
use rag_eval_platform.Prelude.{ℕ, ◌≡◌, Option, none, some, List, [], ◌∷◌, pure, ◌>>=◌}
use rag_eval_platform.Prelude.Dict.{Dict}
use rag_eval_platform.Runs.{cancelled, same_state}
use rag_eval_platform.Runs.Store.{Database, EvalRunRow}
use rag_eval_platform.Runs.Datasets.{EvaluationQuery}
use rag_eval_platform.Runner.{EvaluationRunner, Task, get_run, unless_cancelled}
use rag_eval_platform.Runner.Retrieving.{RunWork, evaluate_variants, evaluate_queries}
use rag_eval_platform.Runner.Execution.{work_of}
use rag_eval_platform.Runs.Store.Rows.{RunGrows}
use rag_eval_platform.Runs.Lifecycle.{same_state_iff}
use rag_eval_platform.Runner.Triples.{Triple, Grows, then_rule, weaken_rule, if_rule}
use rag_eval_platform.Runner.Facts.{Exists}
use rag_eval_platform.Runner.Rules.{K, K-Grows, falls, get_run_rule}
use rag_eval_platform.Runner.Progress.{Done}
use rag_eval_platform.Runner.Loops.{
  AllVariants, AllVariants-Grows, AllResults, evaluate_variants_rule,
}

module _ (i : ℕ) (first row : EvalRunRow) where
  -- how a loop ends: all of it is done, or the run that it read was cancelled
  abbrev pub Looped :
      (Database → Type 0) → (Database → Type 0) → Option EvalRunRow → Database → Type 0
  Looped F Q none db = K i first F row db × Q db
  Looped F Q (some r) db = K i first F r db × (r.state ≡ cancelled)

  -- a round that first looks whether the run is cancelled
  pub unless_cancelled_rule :
      (F : Database → Type 0) (Q : Database → Type 0) (rest : Task (Option EvalRunRow))
      → Grows F
      → Triple (K i first F row) rest (Looped F Q) (Exists i)
      → Triple
          (K i first F row)
          (get_run row.id >>= λ (current : EvalRunRow). unless_cancelled current rest)
          (Looped F Q)
          (Exists i)
  unless_cancelled_rule F Q rest grows h =
      weaken_rule (Exists i) F' (K i first F row) (Looped F Q) (Looped F Q)
        (get_run row.id >>= λ (current : EvalRunRow). unless_cancelled current rest)
        (λ db p. (p.0, p)) (λ a db p. p)
        (then_rule (Exists i) F' (λ r db. K i first (K i first F row) r db × RunGrows row r)
          (Looped F Q) (get_run row.id) (λ current. unless_cancelled current rest)
          (get_run_rule i first (K i first F row) (K-Grows i first F grows row) row)
          (λ r.
            if_rule (Exists i) (λ db. K i first (K i first F row) r db × RunGrows row r)
              (Looped F Q) (same_state r.state cancelled) (pure (some r)) rest
              (λ k w p. ((p.0.0, p.0.1.1), same_state_iff r.state cancelled k))
              (λ k w p. h w p.0.1)))
    where
      F' : Database → Type 0
      F' = K i first (K i first F row) row

module _ (e : EvaluationRunner) (i : ℕ) (first row : EvalRunRow) (hashes : Dict ℕ)
    (done : List (ℕ × ℕ)) where
  -- the outer loop
  pub evaluate_queries_rule :
      (queries : List EvaluationQuery) (F : Database → Type 0)
      → Grows F
      → ((db : Database) → F db → Done row.id done db)
      → (pins : Dict ℕ)
      → Triple
          (K i first F row)
          (evaluate_queries e (work_of row hashes done) queries pins)
          (Looped i first row F (AllResults (work_of row hashes done) queries))
          (Exists i)
  unfolding evaluate_queries
  evaluate_queries_rule [] F grows known pins = λ w p. (p, tt)
  evaluate_queries_rule (q ∷ queries) F grows known pins =
      unless_cancelled_rule i first row F (AllResults work (q ∷ queries))
        (evaluate_variants e work q work.variants pins >>= evaluate_queries e work queries) grows
        (then_rule (Exists i) (K i first F row)
          (λ after db. K i first F row db × AllVariants work q work.variants db)
          (Looped i first row F (AllResults work (q ∷ queries)))
          (evaluate_variants e work q work.variants pins) (evaluate_queries e work queries)
          (evaluate_variants_rule (Exists i) e work q work.variants (K i first F row)
            (falls i first F grows row) (K-Grows i first F grows row) (λ db p. known db p.1) pins)
          (λ after.
            weaken_rule (Exists i) (K i first F' row)
              (λ db. K i first F row db × AllVariants work q work.variants db)
              (Looped i first row F' (AllResults work queries))
              (Looped i first row F (AllResults work (q ∷ queries)))
              (evaluate_queries e work queries after) (λ db p. (p.0.0, (p.0.1, p.1))) reshape
              (evaluate_queries_rule queries F'
                (λ a b g p. (grows a b g p.0, AllVariants-Grows work q work.variants a b g p.1))
                (λ db p. known db p.0) after)))
    where
      work : RunWork
      work = work_of row hashes done

      F' : Database → Type 0
      F' db = F db × AllVariants work q work.variants db

      reshape :
          (early : Option EvalRunRow) (db : Database)
          → Looped i first row F' (AllResults work queries) early db
          → Looped i first row F (AllResults work (q ∷ queries)) early db
      reshape none db p = ((p.0.0, p.0.1.0), (p.0.1.1, p.1))
      reshape (some r) db p = ((p.0.0, p.0.1.0), p.1)
