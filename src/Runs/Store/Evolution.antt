-- ===== src/Runs/Store/Evolution.antt =====
-- What it is for the runs and the results to go forward
-- (src/ragops/persistence/repositories.py and src/ragops/evaluation/repository.py).
pub mod Steps
mod Tests
use rag_eval_platform.Prelude.{
  ℕ, ◌≡◌, refl, sym, ap, ◌∙◌, subst, inl, inr, Bool, true, false, some, List, [], ◌∷◌, ◌++◌, arith,
  ◌==◌, if◌then◌else◌, Bool-cases, transaction, commit_keeps,
}
use rag_eval_platform.Runs.Store.{
  Database, Session, EvalRunRow, EvalQueryResultRow, find_run, update_run,
}
use rag_eval_platform.Runs.Results.{is_result_of, find_result, update_result}
use rag_eval_platform.Runs.Store.Pinned.{find_run-other, find_run-own}
use rag_eval_platform.Runs.Store.Rows.{
  RunGrows, ResultGrows, RunGrows-refl, RunGrows-trans, ResultGrows-refl, ResultGrows-trans,
}

-- Every run and every result is still there, and has only grown.
pub record Evolves (a b : Database) : Type 0 where
  pub runs_grow :
      (i : ℕ) (r : EvalRunRow)
      → find_run i a.runs ≡ some r
      → (r' : EvalRunRow) × (find_run i b.runs ≡ some r') × RunGrows r r'
  pub results_grow :
      (i v q : ℕ) (r : EvalQueryResultRow)
      → find_result i v q a.results ≡ some r
      → (r' : EvalQueryResultRow) × (find_result i v q b.results ≡ some r') × ResultGrows r r'

pub Evolves-refl : (a : Database) → Evolves a a
Evolves-refl a = record {
  runs_grow = λ i r h. (r, h, RunGrows-refl r);
  results_grow = λ i v q r h. (r, h, ResultGrows-refl r);
}

pub Evolves-trans : (a b c : Database) → Evolves a b → Evolves b c → Evolves a c
Evolves-trans a b c g h = record {
  runs_grow = λ i r e.
      let (r', e', k) = g.runs_grow i r e in
      let (r'', e'', l) = h.runs_grow i r' e' in (r'', e'', RunGrows-trans r r' r'' k l);
  results_grow = λ i v q r e.
      let (r', e', k) = g.results_grow i v q r e in
      let (r'', e'', l) = h.results_grow i v q r' e' in (r'', e'', ResultGrows-trans r r' r'' k l);
}

-- the flush of a run that has grown
pub save_run-Evolves :
    (row row' : EvalRunRow) (db : Database)
    → find_run row'.id db.runs ≡ some row
    → RunGrows row row'
    → Evolves db (record db { runs = update_run row'.id row' db.runs })
save_run-Evolves row row' db found g = record {
  runs_grow = grow;
  results_grow = λ i v q r h. (r, h, ResultGrows-refl r);
}
  where
    some_same : (x y : EvalRunRow) → some x ≡ some y → x ≡ y
    some_same x y e = cc

    grow :
        (i : ℕ) (r : EvalRunRow)
        → find_run i db.runs ≡ some r
        → (r' : EvalRunRow) × (find_run i (update_run row'.id row' db.runs) ≡ some r')
          × RunGrows r r'
    grow i r h = elim (Bool-cases (i == row'.id)) [
      | inl k ↦
          let m : i ≡ row'.id = ground (arith, k) in
          let same : row ≡ r =
            some_same row r (sym found ∙ ap (λ (n : ℕ). find_run n db.runs) (sym m) ∙ h) in
          (
            row',
            ap (λ (n : ℕ). find_run n (update_run row'.id row' db.runs)) m
                ∙ find_run-own row row' db.runs found,
            subst (λ (x : EvalRunRow). RunGrows x row') same g,
          )
      | inr k ↦ (r, find_run-other i row' db.runs k ∙ h, RunGrows-refl r)
    ]

find_result-append :
    (i v q : ℕ) (rows : List EvalQueryResultRow) (r x : EvalQueryResultRow)
    → find_result i v q rows ≡ some r
    → find_result i v q (rows ++ x ∷ []) ≡ some r
find_result-append i v q [] r x h = cc
find_result-append i v q (y ∷ rows) r x h = ground (arith, find_result-append i v q rows r x)

pub append_result-Evolves :
    (x : EvalQueryResultRow) (db : Database)
    → Evolves db (record db { results = db.results ++ x ∷ [] })
append_result-Evolves x db = record {
  runs_grow = λ i r h. (r, h, RunGrows-refl r);
  results_grow = λ i v q r h. (r, find_result-append i v q db.results r x h, ResultGrows-refl r);
}

module _ (f : EvalQueryResultRow → EvalQueryResultRow)
    (grows : (r : EvalQueryResultRow) → ResultGrows r (f r)) (j w p : ℕ) where
  same_key : (i v q : ℕ) (x : EvalQueryResultRow) → is_result_of i v q (f x) ≡ is_result_of i v q x
  same_key i v q x =
      let g : ResultGrows x (f x) = grows x in simp (g.same_run, g.same_variant, g.same_query)

  Grown : ℕ → ℕ → ℕ → EvalQueryResultRow → List EvalQueryResultRow → Type 0
  Grown i v q r rows =
      (r' : EvalQueryResultRow) × (find_result i v q rows ≡ some r') × ResultGrows r r'

  find_result-updated :
      (i v q : ℕ) (rows : List EvalQueryResultRow) (r : EvalQueryResultRow)
      → find_result i v q rows ≡ some r
      → Grown i v q r (update_result j w p f rows)
  unfolding Grown
  find_result-updated i v q [] r h = cc
  find_result-updated i v q (x ∷ rows) r h =
      go (is_result_of j w p x) (is_result_of i v q x) refl h (find_result-updated i v q rows r)
    where
      some_same : (x y : EvalQueryResultRow) → some x ≡ some y → x ≡ y
      some_same x y e = cc

      go :
          (b c : Bool)
          → is_result_of i v q x ≡ c
          → (if c then some x else find_result i v q rows) ≡ some r
          → (find_result i v q rows ≡ some r → Grown i v q r (update_result j w p f rows))
          → Grown i v q r (if b then f x ∷ rows else x ∷ update_result j w p f rows)
      go true true e h ih = (
        f x,
        rw (same_key i v q x ∙ e) refl,
        subst (λ (y : EvalQueryResultRow). ResultGrows y (f x)) (some_same x r h) (grows x),
      )
      go true false e h ih = (r, rw (same_key i v q x ∙ e) h, ResultGrows-refl r)
      go false true e h ih = (r, rw e h, ResultGrows-refl r)
      go false false e h ih = let (r', e', g) = ih h in (r', rw e e', g)

  pub update_result-Evolves :
      (db : Database) → Evolves db (record db { results = update_result j w p f db.results })
  unfolding Grown
  update_result-Evolves db = record {
    runs_grow = λ i r h. (r, h, RunGrows-refl r);
    results_grow = λ i v q r h. find_result-updated i v q db.results r h;
  }

-- a transaction, which may roll back
pub transaction-Evolves :
    {A : Type 0} (m : Session A) (db : Database)
    → Evolves db (m db).1
    → Evolves db (transaction m db).1
transaction-Evolves m db g = commit_keeps (Evolves db) db (m db) (Evolves-refl db) g
