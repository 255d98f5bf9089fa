-- ===== src/Runner/Progress.antt =====
-- The retrieval loops leave no query and variant without a result
-- (src/ragops/evaluation/runner.py and src/ragops/evaluation/repository.py).
use rag_eval_platform.Prelude.{
  ℕ, ◌≡◌, refl, sym, ap, ◌∙◌, inl, inr, Bool, true, false, Option, none, some, List, [], ◌∷◌, ◌++◌,
  arith, ltb, ◌==◌, if◌then◌else◌, Bool-cases, ==_refl, Result, ok, err, Error, value_error,
}
use rag_eval_platform.Runs.Store.{Database, EvalRunRow, EvalQueryResultRow, find_run, update_run}
use rag_eval_platform.Runs.Results.{
  is_result_of, find_result, result_count, completed_work, count_result, insert_result, add_result,
}
use rag_eval_platform.Runner.Retrieving.{is_done}
use rag_eval_platform.Runner.Triples.{Grows}

abbrev pub HasResult : ℕ → ℕ → ℕ → Database → Type 0
HasResult i q v db = (r : EvalQueryResultRow) × (find_result i v q db.results ≡ some r)

pub HasResult-Grows : (i q v : ℕ) → Grows (HasResult i q v)
HasResult-Grows i q v a b g (r, e) = let (r', e', k) = g.results_grow i v q r e in (r', e')

find_result-append_own :
    (i v q : ℕ) (x : EvalQueryResultRow) (rows : List EvalQueryResultRow)
    → find_result i v q rows ≡ none
    → is_result_of i v q x ≡ true
    → find_result i v q (rows ++ x ∷ []) ≡ some x
find_result-append_own i v q x [] h k = rw k refl
find_result-append_own i v q x (r ∷ rows) h k = ground (arith, find_result-append_own i v q x rows)

is_own : (x : EvalQueryResultRow) → is_result_of x.eval_run_id x.variant x.query_id x ≡ true
is_own x = simp (==_refl)

-- After `add_result` has returned, the result is there, new or old.
pub add_result_ok :
    (x : EvalQueryResultRow) (b : Bool) (db db' : Database)
    → add_result x db ≡ (ok b, db')
    → HasResult x.eval_run_id x.query_id x.variant db'
unfolding add_result
add_result_ok x b db db' h = go (find_result x.eval_run_id x.variant x.query_id db.results) refl h
  where
    rows : List EvalQueryResultRow
    rows = db.results ++ x ∷ []

    counted :
        (o : Option EvalRunRow)
        → find_result x.eval_run_id x.variant x.query_id rows ≡ some x
        → count_result (result_count x.eval_run_id rows) o (record db { results = rows })
          ≡ (ok b, db')
        → HasResult x.eval_run_id x.query_id x.variant db'
    counted none f h = cc
    counted (some row) f h = limit (ltb row.total_queries (result_count x.eval_run_id rows)) h
      where
        limit :
            (c : Bool)
            → let out : Result Error Bool × Database =
                if c then (err value_error, record db { results = rows }) else (
                  ok true,
                  record db {
                    runs =
                        update_run row.id
                          (record row { completed_queries = result_count x.eval_run_id rows })
                          db.runs;
                    results = rows;
                  },
                ) in
              out ≡ (ok b, db') → HasResult x.eval_run_id x.query_id x.variant db'
        limit true h = cc
        limit false h =
            (x, ap (λ p. find_result x.eval_run_id x.variant x.query_id p.1.results) (sym h) ∙ f)

    go :
        (o : Option EvalQueryResultRow)
        → find_result x.eval_run_id x.variant x.query_id db.results ≡ o
        → insert_result x o db ≡ (ok b, db')
        → HasResult x.eval_run_id x.query_id x.variant db'
    go (some old) e h =
        (old, ap (λ p. find_result x.eval_run_id x.variant x.query_id p.1.results) (sym h) ∙ e)
    go none e h =
        counted (find_run x.eval_run_id db.runs)
          (find_result-append_own x.eval_run_id x.variant x.query_id x db.results e (is_own x)) h

-- The pairs that `completed_work` lists have results.
abbrev pub Done : ℕ → List (ℕ × ℕ) → Database → Type 0
Done i pairs db = (q v : ℕ) → is_done q v pairs ≡ true → HasResult i q v db

pub Done-Grows : (i : ℕ) (pairs : List (ℕ × ℕ)) → Grows (Done i pairs)
Done-Grows i pairs a b g d q v h = HasResult-Grows i q v a b g (d q v h)

listed :
    (i q v : ℕ) (rows : List EvalQueryResultRow)
    → is_done q v (completed_work i rows) ≡ true
    → (r : EvalQueryResultRow) × (find_result i v q rows ≡ some r)
listed i q v [] h = cc
listed i q v (x ∷ rows) h =
    go (x.eval_run_id == i) (q == x.query_id) (v == x.variant) refl refl refl h (listed i q v rows)
  where
    Found : Type 0
    Found = (r : EvalQueryResultRow) × (find_result i v q rows ≡ some r)

    later : Found → (r : EvalQueryResultRow) × (find_result i v q (x ∷ rows) ≡ some r)
    later (r, e) = elim (Bool-cases (is_result_of i v q x)) [
      | inl k ↦ (x, rw k refl)
      | inr k ↦ (r, rw k e)
    ]

    go :
        (a b c : Bool)
        → (x.eval_run_id == i) ≡ a
        → (q == x.query_id) ≡ b
        → (v == x.variant) ≡ c
        → is_done q v
            (if a then (x.query_id, x.variant) ∷ completed_work i rows else completed_work i rows)
          ≡ true
        → (is_done q v (completed_work i rows) ≡ true → Found)
        → (r : EvalQueryResultRow) × (find_result i v q (x ∷ rows) ≡ some r)
    go true true true e f g h ih = (x, ground arith)
    go true true false e f g h ih = later (ih (ground arith))
    go true false c e f g h ih = later (ih (ground arith))
    go false b c e f g h ih = later (ih h)

pub completed_work-Done : (i : ℕ) (db : Database) → Done i (completed_work i db.results) db
completed_work-Done i db q v h = listed i q v db.results h
