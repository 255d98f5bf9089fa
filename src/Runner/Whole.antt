-- ===== src/Runner/Whole.antt =====
-- `_run_retrieval` as a whole (src/ragops/evaluation/runner.py), by the rules for tasks.
use rag_eval_platform.Prelude.{
  ℕ, ◌≤◌, ◌≡◌, refl, ap, ◌≢◌, Bool, true, false, some, List, arith, if◌then◌else◌, ok, ◌>>=◌,
}
use rag_eval_platform.Prelude.Dict.{Dict, lookup}
use rag_eval_platform.Runs.{
  EvalRunState, retrieving, completed, cancelled, place, same_state, EvalRunSpec,
}
use rag_eval_platform.Runs.Store.{Database, EvalRunRow}
use rag_eval_platform.Retrieval.Pipeline.{DatasetManifest}
use rag_eval_platform.Runs.Datasets.{EvaluationQuery, load_queries}
use rag_eval_platform.Runner.{EvaluationRunner, work_done}
use rag_eval_platform.Runner.Selection.{select_evaluation_queries}
use rag_eval_platform.Runner.Execution.{
  StageEnd, returns, goes_on, in_state, on, end_retrieval, retrieve_missing, unless_ended,
}
use rag_eval_platform.Runner.Running.{after_retrieving, retrieve_and_on}
use rag_eval_platform.Runner.Triples.{Triple, Grows, then_rule, weaken_rule}
use rag_eval_platform.Runner.Facts.{Exists}
use rag_eval_platform.Runner.Rules.{K, K-Grows, falls}
use rag_eval_platform.Runner.Stages.{Covered, place_of}
use rag_eval_platform.Runner.Retrieved.{WithResults, WithResults-Grows, Retrieved, retrieving_rule}
use rag_eval_platform.Runner.Later.{Over, after_retrieving_rule}

-- the queries that a run is about: the sample of its split
pub record Sampled (e : EvaluationRunner) (spec : EvalRunSpec) (queries : List EvaluationQuery)
    : Type 0 where
  pub manifest : DatasetManifest
  pub all_queries : List EvaluationQuery
  pub catalogued : lookup spec.dataset e.datasets ≡ some manifest
  pub loaded :
      load_queries e.collates e.tables spec.dataset manifest.version spec.split ≡ ok all_queries
  pub selected :
      select_evaluation_queries e.text_lt e.digest all_queries spec.sample_size spec.seed
      ≡ ok queries

-- what a run from its start is to have done when it is completed
abbrev pub Whole : EvaluationRunner → ℕ → EvalRunSpec → Database → Type 0
Whole e i spec db =
    (queries : List EvaluationQuery) × (Sampled e spec queries × Covered i spec.variants queries db)

module _ (e : EvaluationRunner) (i : ℕ) (first : EvalRunRow) where
  abbrev pub Nothing : Database → Type 0
  Nothing db = Unit {0}

  pub nothing-Grows : Grows Nothing
  nothing-Grows a b g p = tt

  abbrev pub Read : EvalRunRow → Database → Type 0
  Read = K i first Nothing

  pub down : (row : EvalRunRow) (db : Database) → Read row db → Exists i db
  down = falls i first Nothing nothing-Grows

  pub Read-Grows : (row : EvalRunRow) → Grows (Read row)
  Read-Grows = K-Grows i first Nothing nothing-Grows

  -- The run is finished, and complete where the retrieval was entered.
  abbrev pub Fin : Type 0 → List EvaluationQuery → EvalRunRow → EvalRunRow → Database → Type 0
  Fin Start queries row r db =
      Read r db
      × ((7 ≤ place r.state)
          × (Start → r.state ≡ completed → Covered row.id row.spec.variants queries db))

  module _ (Start : Type 0) (queries : List EvaluationQuery) (row : EvalRunRow) where
    after_stage :
        (st : StageEnd)
        → Triple
            (Retrieved e i first Nothing nothing-Grows row queries st)
            (unless_ended (after_retrieving e queries) st)
            (Fin Start queries row)
            (Exists i)
    after_stage (returns r) = λ w p.
        (p.0, (omega (arith, place_of r.state cancelled p.1), λ s c. absurd (clash r.state p.1 c)))
      where
        clash : (s : EvalRunState) → s ≡ cancelled → s ≢ completed
        clash s h k =
            let l : place s ≡ 9 = place_of s cancelled h in
            let m : place s ≡ 7 = place_of s completed k in omega (arith, l, m)
    after_stage (goes_on r) = λ w p.
        weaken_rule (Exists i) (K i first G r) (K i first G r) (Over e i first G G-Grows)
          (Fin Start queries row) (after_retrieving e queries r) (λ db p. p)
          (λ s db p. ((p.0.0, tt), (p.1, λ h c. p.0.1.1)))
          (after_retrieving_rule e i first G G-Grows queries r p.1) w p.0
      where
        G : Database → Type 0
        G = WithResults e i first Nothing nothing-Grows row queries

        G-Grows : Grows G
        G-Grows = WithResults-Grows e i first Nothing nothing-Grows row queries

    pub retrieve_and_on_rule :
        (hashes pins : Dict ℕ) (total : ℕ)
        → 3 ≤ place row.state
        → (Start → row.state ≡ retrieving)
        → Triple
            (Read row)
            (retrieve_and_on e queries hashes pins total row)
            (Fin Start queries row)
            (Exists i)
    retrieve_and_on_rule hashes pins total h start = go (in_state retrieving row) refl
      where
        on_it : in_state retrieving row ≡ false → row.state ≢ retrieving
        on_it k s = cc (ap (λ x. same_state x retrieving) s, k)

        go :
            (b : Bool)
            → in_state retrieving row ≡ b
            → Triple
                (Read row)
                ((if b
                    then (work_done row.id
                        >>= retrieve_missing e queries hashes pins row
                        >>= end_retrieval row.id total)
                    else on row)
                  >>= unless_ended (after_retrieving e queries))
                (Fin Start queries row)
                (Exists i)
        go true k =
            then_rule (Exists i) (Read row) (Retrieved e i first Nothing nothing-Grows row queries)
              (Fin Start queries row)
              (work_done row.id
                >>= retrieve_missing e queries hashes pins row
                >>= end_retrieval row.id total)
              (unless_ended (after_retrieving e queries))
              (retrieving_rule e i first Nothing nothing-Grows row queries total hashes pins)
              after_stage
        go false k =
            weaken_rule (Exists i) (Read row) (Read row) (Over e i first Nothing nothing-Grows)
              (Fin Start queries row) (after_retrieving e queries row) (λ db p. p)
              (λ s db p. (p.0, (p.1, λ s c. absurd (on_it k (start s)))))
              (after_retrieving_rule e i first Nothing nothing-Grows queries row
                (ground (arith, k)))
