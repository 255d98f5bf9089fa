-- ===== src/Runner/Start.antt =====
-- `_run_retrieval` from its start (src/ragops/evaluation/runner.py), by the rules for tasks.
use rag_eval_platform.Prelude.{
  ℕ, ◌≤◌, ◌≡◌, ap, subst, not, some, List, ◌==◌, is_nil, ok, pure, or_raise, ◌>>◌, raise_if,
  value_error, key_error,
}
use rag_eval_platform.Prelude.Dict.{Dict, lookup}
use rag_eval_platform.Runs.{preparing, retrieving, completed, place, EvalRunSpec}
use rag_eval_platform.Runs.Store.{Database, EvalRunRow, get_variant_hashes}
use rag_eval_platform.Retrieval.Pipeline.{DatasetManifest}
use rag_eval_platform.Runs.Datasets.{EvaluationQuery, load_queries}
use rag_eval_platform.Runner.{EvaluationRunner, lift, variant_hashes, queries_for}
use rag_eval_platform.Runner.Selection.{select_evaluation_queries}
use rag_eval_platform.Runner.Execution.{
  prepare, some_queries, select, load_split, load_sample, current_hashes, dict_eq, compare_hashes,
  check_hashes, expected_hashes, enter_retrieval,
}
use rag_eval_platform.Runner.Running.{
  total_work, retrieve_and_on, with_hashes, with_queries, prepared, run_retrieval,
}
use rag_eval_platform.Runs.Store.Evolution.{Evolves-refl}
use rag_eval_platform.Runner.Triples.{
  Triple, Grows, then_rule, weaken_rule, or_raise_rule, lift_rule,
}
use rag_eval_platform.Runner.Facts.{Exists, Known}
use rag_eval_platform.Runner.Loops.{raise_if_keeps, lift_keeps, call_adds, call_keeps}
use rag_eval_platform.Runner.Stages.{Covered, prepare_rule, enter_retrieval_rule}
use rag_eval_platform.Runner.Whole.{
  Sampled, Whole, Nothing, nothing-Grows, Read, down, Read-Grows, Fin, retrieve_and_on_rule,
}

module _ (e : EvaluationRunner) (i : ℕ) (first : EvalRunRow) where
  abbrev R : Database → Type 0
  R = Exists i

  abbrev Got : EvalRunRow → Database → Type 0
  Got = Read e i first

  Got-Grows : (row : EvalRunRow) → Grows (Got row)
  Got-Grows = Read-Grows e i first

  falling : (row : EvalRunRow) (db : Database) → Got row db → R db
  falling = down e i first

  -- the run is finished, and complete where it was picked up before the retrieval
  abbrev pub Finished : Type 0 → EvalRunRow → Database → Type 0
  Finished Start r db =
      Got r db × ((7 ≤ place r.state) × (Start → r.state ≡ completed → Whole e i first.spec db))

  module _ (Start : Type 0) where
    with_hashes_rule :
        (row : EvalRunRow) (queries : List EvaluationQuery) (hashes : Dict ℕ)
        → Sampled e first.spec queries
        → 2 ≤ place row.state
        → (Start → row.state ≡ preparing)
        → Triple (Got row) (with_hashes e row queries hashes) (Finished Start) R
    with_hashes_rule row queries hashes sampled h start =
        then_rule R (Got row)
          (λ r db.
            Got r db × ((3 ≤ place r.state) × (row.state ≡ preparing → r.state ≡ retrieving)))
          (Finished Start) (enter_retrieval (total_work e row queries) row)
          (retrieve_and_on e queries hashes row.index_fingerprints (total_work e row queries))
          (enter_retrieval_rule e i first (Nothing e i first) (nothing-Grows e i first) row
            (total_work e row queries) h)
          (λ r w p.
            let k : Known i first r w.db = p.0.0 in
            weaken_rule R (Got r) (Got r) (Fin e i first Start queries r) (Finished Start)
              (retrieve_and_on e queries hashes row.index_fingerprints (total_work e row queries) r)
              (λ db q. q)
              (λ s db q. (
                q.0,
                (
                  q.1.0,
                  λ a c. (
                    queries,
                    (sampled, covered r queries db k.named k.since.same_spec (q.1.1 a c)),
                  ),
                ),
              ))
              (retrieve_and_on_rule e i first Start queries r hashes row.index_fingerprints
                (total_work e row queries) p.1.0 (λ a. p.1.1 (start a)))
              w p.0)
      where
        covered :
            (r : EvalRunRow) (queries : List EvaluationQuery) (db : Database)
            → r.id ≡ i
            → r.spec ≡ first.spec
            → Covered r.id r.spec.variants queries db
            → Covered i first.spec.variants queries db
        covered r queries db m n c =
            subst (λ (s : EvalRunSpec). Covered i s.variants queries db) n
              (subst (λ (j : ℕ). Covered j r.spec.variants queries db) m c)

    expected_hashes_rule :
        (row : EvalRunRow) → Triple (Got row) (expected_hashes e row) (λ hashes. Got row) R
    expected_hashes_rule row =
        then_rule R (Got row) (λ h. Got row) (λ h. Got row) (variant_hashes row.id)
          (check_hashes e row.spec)
          (call_keeps R (Got row) (falling row) (Got-Grows row)
            (λ now (db : Database). (ok (get_variant_hashes row.id db.run_variants), db))
            (λ now db. Evolves-refl db))
          (λ hashes.
            then_rule R (Got row) (λ h. Got row) (λ h. Got row)
              (lift (current_hashes e row.spec.variants)) (compare_hashes hashes)
              (lift_keeps R (Got row) (falling row) (current_hashes e row.spec.variants))
              (λ current.
                then_rule R (Got row) (λ u. Got row) (λ h. Got row)
                  (raise_if (not (dict_eq hashes current)) value_error) (λ u. pure hashes)
                  (raise_if_keeps R (Got row) (falling row) (not (dict_eq hashes current))
                    value_error)
                  (λ u w p. p)))

    with_queries_rule :
        (row : EvalRunRow) (queries : List EvaluationQuery)
        → Sampled e first.spec queries
        → 2 ≤ place row.state
        → (Start → row.state ≡ preparing)
        → Triple (Got row) (with_queries e row queries) (Finished Start) R
    with_queries_rule row queries sampled h start =
        then_rule R (Got row) (λ hashes. Got row) (Finished Start) (expected_hashes e row)
          (with_hashes e row queries) (expected_hashes_rule row)
          (λ hashes. with_hashes_rule row queries hashes sampled h start)

  -- the queries are those of the sample
  module _ (row : EvalRunRow) (spec : EvalRunSpec) where
    abbrev Loaded : List EvaluationQuery → Database → Type 0
    Loaded queries db = Got row db × Sampled e spec queries

    abbrev Selected : List EvaluationQuery → List EvaluationQuery → Type 0
    Selected all_queries queries =
        select_evaluation_queries e.text_lt e.digest all_queries spec.sample_size spec.seed
        ≡ ok queries

    select_rule :
        (all_queries : List EvaluationQuery)
        → Triple
            (Got row)
            (select e spec all_queries)
            (λ queries db. Got row db × Selected all_queries queries)
            R
    select_rule all_queries =
        then_rule R (Got row) (λ queries db. Selected all_queries queries × Got row db)
          (λ queries db. Got row db × Selected all_queries queries)
          (lift
            (select_evaluation_queries e.text_lt e.digest all_queries spec.sample_size spec.seed))
          some_queries
          (lift_rule R (Got row) (falling row)
            (select_evaluation_queries e.text_lt e.digest all_queries spec.sample_size spec.seed))
          (λ queries w p.
            then_rule R (Got row) (λ u. Got row)
              (λ (qs : List EvaluationQuery) db. Got row db × Selected all_queries qs)
              (raise_if (is_nil queries) value_error) (λ u. pure queries)
              (raise_if_keeps R (Got row) (falling row) (is_nil queries) value_error)
              (λ u w q. (q, p.0)) w p.1)

    load_sample_rule : Triple (Got row) (load_sample e spec) Loaded R
    load_sample_rule =
        then_rule R (Got row) (λ m db. (lookup spec.dataset e.datasets ≡ some m) × Got row db)
          Loaded (or_raise (lookup spec.dataset e.datasets) key_error) (load_split e spec)
          (or_raise_rule R (Got row) (falling row) (lookup spec.dataset e.datasets) key_error)
          (λ m w p.
            then_rule R (Got row) (Of m) Loaded
              (raise_if (not (spec.split == m.default_split)) value_error
                >> queries_for e spec.dataset m.version spec.split)
              (select e spec)
              (then_rule R (Got row) (λ u. Got row) (Of m)
                (raise_if (not (spec.split == m.default_split)) value_error)
                (λ u. queries_for e spec.dataset m.version spec.split)
                (raise_if_keeps R (Got row) (falling row) (not (spec.split == m.default_split))
                  value_error)
                (λ u. read_rule m))
              (λ all_queries w q.
                weaken_rule R (Got row) (Got row)
                  (λ queries db. Got row db × Selected all_queries queries) Loaded
                  (select e spec all_queries) (λ db r. r)
                  (λ queries db r. (
                    r.0,
                    record {
                      manifest = m;
                      all_queries = all_queries;
                      catalogued = p.0;
                      loaded = q.1;
                      selected = r.1;
                    },
                  ))
                  (select_rule all_queries) w q.0)
              w p.1)
      where
        Of : DatasetManifest → List EvaluationQuery → Database → Type 0
        Of m all_queries db =
            Got row db
            × (load_queries e.collates e.tables spec.dataset m.version spec.split ≡ ok all_queries)

        read_rule :
            (m : DatasetManifest)
            → Triple (Got row) (queries_for e spec.dataset m.version spec.split) (Of m) R
        read_rule m =
            call_adds R (Got row) (falling row) (Got-Grows row)
              (λ all_queries db.
                load_queries e.collates e.tables spec.dataset m.version spec.split ≡ ok all_queries)
              (λ now (db : Database).
                (load_queries e.collates e.tables spec.dataset m.version spec.split, db))
              (λ now db. Evolves-refl db) (λ now db a db' h. ap (λ p. p.0) h)

  -- From a run that is neither CREATED nor finished, `_run_retrieval` returns the run finished, or raises.
  pub run_retrieval_rule :
      1 ≤ place first.state
      → Triple (Got first) (run_retrieval e first) (Finished (place first.state ≤ 2)) R
  unfolding run_retrieval
  run_retrieval_rule h =
      then_rule R (Got first)
        (λ r db. Got r db × ((2 ≤ place r.state) × (place first.state ≤ 2 → r.state ≡ preparing)))
        (Finished (place first.state ≤ 2)) (prepare first) (prepared e)
        (prepare_rule e i first (Nothing e i first) (nothing-Grows e i first) first h)
        (λ r w p.
          let k : Known i first r w.db = p.0.0 in
          then_rule R (Got r) (Loaded r r.spec) (Finished (place first.state ≤ 2))
            (load_sample e r.spec) (with_queries e r) (load_sample_rule r r.spec)
            (λ queries w q.
              with_queries_rule (place first.state ≤ 2) r queries
                (subst (λ (s : EvalRunSpec). Sampled e s queries) k.since.same_spec q.1) p.1.0 p.1.1
                w q.0)
            w p.0)
