-- ===== src/Runs/Store/Evolution/Steps.antt =====
-- Every sequence of transactions takes the runs and the results forward
-- (src/ragops/persistence/repositories.py and src/ragops/evaluation/repository.py).
use rag_eval_platform.Prelude.{
  ℕ, ◌≡◌, refl, ap, ◌∙◌, inl, inr, Bool, true, false, ◌||◌, Option, none, some, List, [], ◌∷◌, ◌++◌,
  ltb, ◌==◌, Bool-cases, Option-cases, all, contains, Result, ok, err, or_raise, continue, raise_if,
  ℤ, pos_part, is_negative, Error, value_error, key_error,
}
use rag_eval_platform.Prelude.Dict.{Dict, lookup, insert, keys}
use rag_eval_platform.Runs.{EvalRunState, ensure_state_transition, EvalRunSpec}
use rag_eval_platform.Runs.Store.{
  JudgeVerdict, Database, Session, EvalRunRow, EvalQueryResultRow, find_run, load_run, create,
  drifted, pin_on, pin_index_fingerprint, moved, move_checked, move_on, set_state, progress_on,
  set_progress,
}
use rag_eval_platform.Runs.Results.{
  find_result, result_count, count_result, insert_result, add_result, with_answer, update_answer,
  with_verdicts, update_judges,
}
use rag_eval_platform.Generation.{AnswerResponse}
use rag_eval_platform.Runs.Store.Pinned.{find_run-id, find_run-append}
use rag_eval_platform.Runs.Store.Pins.{
  RunOp, create_op, pin_op, state_op, progress_op, result_op, answer_op, judges_op, perform, run,
}
use rag_eval_platform.Runs.Store.Rows.{
  RunGrows-refl, ResultGrows-refl, moved-RunGrows, counted-RunGrows, pinned-RunGrows,
  with_answer-ResultGrows, with_verdicts-ResultGrows,
}
use rag_eval_platform.Runs.Store.Evolution.{
  Evolves, Evolves-refl, Evolves-trans, save_run-Evolves, append_result-Evolves,
  update_result-Evolves, transaction-Evolves,
}

-- a step on one row, which keeps its id
on_row-Evolves :
    {A : Type 0} (step : EvalRunRow → Session A) (j : ℕ) (db : Database)
    → ((row : EvalRunRow) → find_run row.id db.runs ≡ some row → Evolves db (step row db).1)
    → Evolves db (continue step (load_run j db)).1
on_row-Evolves step j db each = go (find_run j db.runs) refl
  where
    go :
        (o : Option EvalRunRow)
        → find_run j db.runs ≡ o
        → Evolves db (continue step (or_raise o key_error db)).1
    go none e = Evolves-refl db
    go (some row) e =
        each row (ap (λ (n : ℕ). find_run n db.runs) (find_run-id j db.runs row e) ∙ e)

pin_on-Evolves :
    (v f : ℕ) (db : Database) (row : EvalRunRow)
    → find_run row.id db.runs ≡ some row
    → Evolves db (pin_on v f row db).1
pin_on-Evolves v f db row found = elim (Bool-cases (contains v row.spec.variants)) [
  | inl a ↦ elim (Bool-cases (drifted f (lookup v row.index_fingerprints))) [
    | inl b ↦ rw (a, b) (Evolves-refl db)
    | inr b ↦
        rw (a, b)
          (save_run-Evolves row
            (record row { index_fingerprints = insert v f row.index_fingerprints }) db found
            (pinned-RunGrows v f row b))
  ]
  | inr a ↦ rw a (Evolves-refl db)
]

move_on-Evolves :
    (now : ℕ) (state : EvalRunState) (db : Database) (row : EvalRunRow)
    → find_run row.id db.runs ≡ some row
    → Evolves db (move_on now state row db).1
move_on-Evolves now state db row found = go (ensure_state_transition row.state state) refl
  where
    go :
        (o : Result Error Unit)
        → ensure_state_transition row.state state ≡ o
        → Evolves db (move_checked now state row o db).1
    go (err e) k = Evolves-refl db
    go (ok m) k =
        save_run-Evolves row (moved now state row) db found (moved-RunGrows now state row k)

progress_on-Evolves :
    (done total : ℕ) (db : Database) (row : EvalRunRow)
    → find_run row.id db.runs ≡ some row
    → Evolves db (progress_on done total row db).1
progress_on-Evolves done total db row found = elim (Bool-cases (ltb done row.completed_queries)) [
  | inl a ↦ rw a (Evolves-refl db)
  | inr a ↦ elim (Bool-cases (row.total_queries == 0 || row.total_queries == total)) [
    | inl b ↦
        rw (a, b)
          (save_run-Evolves row (record row { completed_queries = done; total_queries = total }) db
            found (counted-RunGrows done total row))
    | inr b ↦ rw (a, b) (Evolves-refl db)
  ]
]

create-Evolves :
    (j stamp : ℕ) (spec : EvalRunSpec) (hashes : Dict ℕ) (git digest : Option ℕ) (db : Database)
    → Evolves db (create j stamp spec hashes git digest db).1
unfolding create
create-Evolves j stamp spec hashes git digest db =
    elim (Bool-cases (all (λ v. contains v (keys hashes)) spec.variants)) [
      | inl a ↦ rw a (record {
        runs_grow = λ i r h. (r, find_run-append i db.runs r _ h, RunGrows-refl r);
        results_grow = λ i v q r h. (r, h, ResultGrows-refl r);
      })
      | inr a ↦ rw a (Evolves-refl db)
    ]

pub pin_index_fingerprint-Evolves :
    (j v f : ℕ) (db : Database) → Evolves db (pin_index_fingerprint j v f db).1
unfolding pin_index_fingerprint
pin_index_fingerprint-Evolves j v f db =
    on_row-Evolves (pin_on v f) j db (λ row found. pin_on-Evolves v f db row found)

pub set_state-Evolves :
    (now j : ℕ) (state : EvalRunState) (db : Database) → Evolves db (set_state now j state db).1
unfolding set_state
set_state-Evolves now j state db =
    on_row-Evolves (move_on now state) j db (λ row found. move_on-Evolves now state db row found)

pub set_progress-Evolves :
    (j : ℕ) (done total : ℤ) (db : Database) → Evolves db (set_progress j done total db).1
unfolding set_progress
set_progress-Evolves j done total db =
    go (is_negative done || is_negative total || ltb (pos_part total) (pos_part done))
  where
    go :
        (bad : Bool)
        → Evolves db
            (continue
              (progress_on (pos_part done) (pos_part total))
              (continue (λ checked. load_run j) (raise_if bad value_error db))).1
    go true = Evolves-refl db
    go false =
        on_row-Evolves (progress_on (pos_part done) (pos_part total)) j db
          (λ row found. progress_on-Evolves (pos_part done) (pos_part total) db row found)

count_result-Evolves :
    (i done : ℕ) (o : Option EvalRunRow) (db : Database)
    → find_run i db.runs ≡ o
    → Evolves db (count_result done o db).1
count_result-Evolves i done none db e = Evolves-refl db
count_result-Evolves i done (some r) db e = elim (Bool-cases (ltb r.total_queries done)) [
  | inl a ↦ rw a (Evolves-refl db)
  | inr a ↦ rw a (
      save_run-Evolves r (record r { completed_queries = done }) db
        (ap (λ (n : ℕ). find_run n db.runs) (find_run-id i db.runs r e) ∙ e)
        (counted-RunGrows done r.total_queries r))
]

pub add_result-Evolves :
    (row : EvalQueryResultRow) (db : Database) → Evolves db (add_result row db).1
unfolding add_result
add_result-Evolves row db = go (find_result row.eval_run_id row.variant row.query_id db.results)
  where
    rows : List EvalQueryResultRow
    rows = db.results ++ row ∷ []

    go : (o : Option EvalQueryResultRow) → Evolves db (insert_result row o db).1
    go (some old) = Evolves-refl db
    go none =
        Evolves-trans db (record db { results = rows }) _ (append_result-Evolves row db)
          (count_result-Evolves row.eval_run_id (result_count row.eval_run_id rows)
            (find_run row.eval_run_id db.runs) (record db { results = rows }) refl)

pub update_answer-Evolves :
    (i q v : ℕ) (answer : AnswerResponse) (scores : Dict ℕ) (gold : Option ℕ) (db : Database)
    → Evolves db (update_answer i q v answer scores gold db).1
unfolding update_answer
update_answer-Evolves i q v answer scores gold db =
    elim (Option-cases (find_result i v q db.results)) [
      | inl e ↦ rw (e, update_answer) (Evolves-refl db)
      | inr (r, e) ↦
          rw (e, update_answer)
            (update_result-Evolves (with_answer answer scores gold)
              (with_answer-ResultGrows answer scores gold) i v q db)
    ]

pub update_judges-Evolves :
    (i q v : ℕ) (verdicts : Dict JudgeVerdict) (db : Database)
    → Evolves db (update_judges i q v verdicts db).1
unfolding update_judges
update_judges-Evolves i q v verdicts db = elim (Option-cases (find_result i v q db.results)) [
  | inl e ↦ rw (e, update_judges) (Evolves-refl db)
  | inr (r, e) ↦
      rw (e, update_judges)
        (update_result-Evolves (with_verdicts verdicts) (with_verdicts-ResultGrows verdicts) i v q
          db)
]

perform-Evolves : (op : RunOp) (db : Database) → Evolves db (perform op db)
unfolding perform
perform-Evolves (create_op i stamp spec hashes git digest) db =
    transaction-Evolves (create i stamp spec hashes git digest) db
      (create-Evolves i stamp spec hashes git digest db)
perform-Evolves (pin_op i v f) db =
    transaction-Evolves (pin_index_fingerprint i v f) db (pin_index_fingerprint-Evolves i v f db)
perform-Evolves (state_op now i state) db =
    transaction-Evolves (set_state now i state) db (set_state-Evolves now i state db)
perform-Evolves (progress_op i done total) db =
    transaction-Evolves (set_progress i done total) db (set_progress-Evolves i done total db)
perform-Evolves (result_op row) db =
    transaction-Evolves (add_result row) db (add_result-Evolves row db)
perform-Evolves (answer_op i q v answer scores gold) db =
    transaction-Evolves (update_answer i q v answer scores gold) db
      (update_answer-Evolves i q v answer scores gold db)
perform-Evolves (judges_op i q v verdicts) db =
    transaction-Evolves (update_judges i q v verdicts) db (update_judges-Evolves i q v verdicts db)

-- Whatever sequence of repository transactions commits, every run is still there with its id, its
-- specification, its creation time and its pinned indexes, its state is no earlier in the lifecycle,
-- and it is the same state if the run was completed, failed or cancelled; and every result is still
-- there with its key and its ranking, with the answer that it had and with each verdict that it had.
pub run-Evolves : (ops : List RunOp) (db : Database) → Evolves db (run ops db)
unfolding run
run-Evolves [] db = Evolves-refl db
run-Evolves (op ∷ ops) db =
    Evolves-trans db (perform op db) (run ops (perform op db)) (perform-Evolves op db)
      (run-Evolves ops (perform op db))
