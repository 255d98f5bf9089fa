-- ===== src/Runner/Stages.antt =====
-- The stages of the runner, one by one (src/ragops/evaluation/runner.py), by the rules for tasks.
use rag_eval_platform.Prelude.{
  ℕ, ◌≤◌, ◌≡◌, ap, ◌≢◌, true, false, List, arith, if◌then◌else◌, All, pure, ◌>>=◌,
}
use rag_eval_platform.Runs.{
  EvalRunState, queued, preparing, retrieving, cancelled, place, same_state,
}
use rag_eval_platform.Runs.Store.{Database, EvalRunRow}
use rag_eval_platform.Runs.Datasets.{EvaluationQuery}
use rag_eval_platform.Runner.{EvaluationRunner, enter_state, enter_progress}
use rag_eval_platform.Runner.Execution.{
  StageEnd, returns, goes_on, in_state, prepare, to_retrieving, enter_retrieval,
}
use rag_eval_platform.Runs.Store.Rows.{RunGrows}
use rag_eval_platform.Runs.Lifecycle.{same_state_iff}
use rag_eval_platform.Runner.Triples.{Triple, Grows, then_rule, weaken_rule, if_rule}
use rag_eval_platform.Runner.Facts.{Exists}
use rag_eval_platform.Runner.Rules.{K, K-Grows, falls, enter_state_rule, enter_progress_rule}
use rag_eval_platform.Runner.Progress.{HasResult}

-- every query has a result for every variant
abbrev pub Covered : ℕ → List ℕ → List EvaluationQuery → Database → Type 0
Covered i variants queries db =
    All (λ (q : EvaluationQuery). All (λ v. HasResult i q.id v db) variants) queries

pub place_of : (s t : EvalRunState) → s ≡ t → place s ≡ place t
place_of s t e = ap place e

module _ (e : EvaluationRunner) (i : ℕ) (first : EvalRunRow) (F : Database → Type 0)
    (F-Grows : Grows F) where
  -- how a stage ends: the run was cancelled, or the run goes on in a state from `k` on
  abbrev pub Staged : ℕ → StageEnd → Database → Type 0
  Staged k (returns r) db = K i first F r db × (r.state ≡ cancelled)
  Staged k (goes_on r) db = K i first F r db × (k ≤ place r.state)

  module _ (row : EvalRunRow) where
    abbrev Here : Database → Type 0
    Here = K i first F row

    down : (db : Database) → Here db → Exists i db
    down = falls i first F F-Grows row

    Here-Grows : Grows Here
    Here-Grows = K-Grows i first F F-Grows row

    pub prepare_rule :
        1 ≤ place row.state
        → Triple Here
            (prepare row)
            (λ r db.
              K i first F r db
              × ((2 ≤ place r.state) × (place row.state ≤ 2 → r.state ≡ preparing)))
            (Exists i)
    prepare_rule h =
        if_rule (Exists i) Here After' (in_state queued row) (enter_state row.id preparing)
          (pure row)
          (λ k.
            weaken_rule (Exists i) Here Here
              (λ r db. K i first F r db × (RunGrows row r × (r.state ≡ preparing))) After'
              (enter_state row.id preparing) (λ db p. p)
              (λ r db p. (p.0, (omega (arith, place_of r.state preparing p.1.1), λ l. p.1.1)))
              (enter_state_rule i first F F-Grows row preparing))
          (λ k w p.
            (p, (ground (arith, k), λ l. same_state_iff row.state preparing (ground (arith, k)))))
      where
        After' : EvalRunRow → Database → Type 0
        After' r db =
            K i first F r db × ((2 ≤ place r.state) × (place row.state ≤ 2 → r.state ≡ preparing))

    pub enter_retrieval_rule :
        (total : ℕ)
        → 2 ≤ place row.state
        → Triple Here
            (enter_retrieval total row)
            (λ r db.
              K i first F r db
              × ((3 ≤ place r.state) × (row.state ≡ preparing → r.state ≡ retrieving)))
            (Exists i)
    enter_retrieval_rule total h =
        if_rule (Exists i) Here After' (in_state preparing row)
          (enter_progress row.id row.completed_queries total >>= to_retrieving)
          (if in_state retrieving row
            then enter_progress row.id row.completed_queries total
            else pure row)
          (λ k.
            then_rule (Exists i) Here (λ r db. K i first F r db × RunGrows row r) After'
              (enter_progress row.id row.completed_queries total) to_retrieving
              (enter_progress_rule i first F F-Grows row row.completed_queries total)
              (λ r.
                weaken_rule (Exists i) (K i first F r) (λ db. K i first F r db × RunGrows row r)
                  (λ s db. K i first F s db × (RunGrows r s × (s.state ≡ retrieving))) After'
                  (enter_state r.id retrieving) (λ db p. p.0)
                  (λ s db p. (p.0, (omega (arith, place_of s.state retrieving p.1.1), λ l. p.1.1)))
                  (enter_state_rule i first F F-Grows r retrieving)))
          (λ k.
            if_rule (Exists i) Here After' (in_state retrieving row)
              (enter_progress row.id row.completed_queries total) (pure row)
              (λ l.
                weaken_rule (Exists i) Here Here (λ r db. K i first F r db × RunGrows row r) After'
                  (enter_progress row.id row.completed_queries total) (λ db p. p)
                  (λ r db p. (p.0, (later r p.1 k l, λ m. absurd (not_both k m))))
                  (enter_progress_rule i first F F-Grows row row.completed_queries total))
              (λ l w p. (p, (ground (arith, k), λ m. absurd (not_both k m)))))
      where
        After' : EvalRunRow → Database → Type 0
        After' r db =
            K i first F r db
            × ((3 ≤ place r.state) × (row.state ≡ preparing → r.state ≡ retrieving))

        not_both : in_state preparing row ≡ false → row.state ≢ preparing
        not_both k m = cc (ap (λ s. same_state s preparing) m, k)

        later :
            (r : EvalRunRow)
            → RunGrows row r
            → in_state preparing row ≡ false
            → in_state retrieving row ≡ true
            → 3 ≤ place r.state
        later r g k l = let f : place row.state ≤ place r.state = g.forward in ground (arith, f, l)
