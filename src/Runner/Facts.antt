-- ===== src/Runner/Facts.antt =====
-- What the runner knows of its run from the rows that it has read, whatever others do meanwhile
-- (src/ragops/evaluation/runner.py).
use rag_eval_platform.Prelude.{
  ℕ, ◌≡◌, refl, sym, ap, ◌∙◌, subst, Bool, true, false, not, ◌||◌, Option, none, some, ltb, ◌==◌,
  if◌then◌else◌, Result, ok, err, or_raise, continue, raise_if, pos, Error, value_error, key_error,
}
use rag_eval_platform.Runs.{EvalRunState, ensure_state_transition}
use rag_eval_platform.Runs.Store.{
  Database, EvalRunRow, find_run, update_run, load_run, save_run, moved, move_checked, move_on,
  set_state, progress_on, set_progress,
}
use rag_eval_platform.Runs.Store.Rows.{RunGrows, RunGrows-trans, moved-RunGrows, counted-RunGrows}
use rag_eval_platform.Runs.Store.Pinned.{find_run-id, find_run-own}
use rag_eval_platform.Runner.Triples.{Grows}

-- the run is there, and has grown from the row
abbrev Seen : ℕ → EvalRunRow → Database → Type 0
Seen i row db = (r : EvalRunRow) × (find_run i db.runs ≡ some r) × RunGrows row r

abbrev pub Exists : ℕ → Database → Type 0
Exists i db = (r : EvalRunRow) × (find_run i db.runs ≡ some r)

Seen-Grows : (i : ℕ) (row : EvalRunRow) → Grows (Seen i row)
Seen-Grows i row a b g (r, e, k) =
    let (r', e', l) = g.runs_grow i r e in (r', e', RunGrows-trans row r r' k l)

-- A row that was read: it is the run's, and it has grown from the row `first`.
pub record Known (i : ℕ) (first row : EvalRunRow) (db : Database) : Type 0 where
  pub named : row.id ≡ i
  pub seen : Seen i row db
  pub since : RunGrows first row

pub Known-Grows : (i : ℕ) (first row : EvalRunRow) → Grows (Known i first row)
Known-Grows i first row a b g k = record {
  named = k.named;
  seen = Seen-Grows i row a b g k.seen;
  since = k.since;
}

-- the row that a step returns is the one in the table, and has grown from the one before
abbrev Written : ℕ → EvalRunRow → EvalRunRow → Database → Type 0
Written i old r db = (find_run i db.runs ≡ some r) × RunGrows old r

some_same : (x y : EvalRunRow) → some x ≡ some y → x ≡ y
some_same x y e = cc

saved :
    (i : ℕ) (row row' r : EvalRunRow) (db db' : Database)
    → find_run i db.runs ≡ some row
    → row'.id ≡ row.id
    → RunGrows row row'
    → save_run row' db ≡ (ok r, db')
    → Written i row r db' × (row' ≡ r)
saved i row row' r db db' found same g h =
    let named : row'.id ≡ i = same ∙ find_run-id i db.runs row found in
    let result : row' ≡ r = cc (h) in
    let after : record db { runs = update_run row'.id row' db.runs } ≡ db' = ap (λ p. p.1) h in
    let own : find_run i (update_run row'.id row' db.runs) ≡ some row' =
      ap (λ (n : ℕ). find_run n (update_run row'.id row' db.runs)) (sym named)
      ∙ find_run-own row row' db.runs (ap (λ (n : ℕ). find_run n db.runs) named ∙ found) in
    (
      (
        ap (λ (d : Database). find_run i d.runs) (sym after)
            ∙ own
            ∙ ap (λ (x : EvalRunRow). some x) result,
        subst (λ (x : EvalRunRow). RunGrows row x) result g,
      ),
      result,
    )

pub set_state_ok :
    (now i : ℕ) (state : EvalRunState) (old r : EvalRunRow) (db db' : Database)
    → find_run i db.runs ≡ some old
    → set_state now i state db ≡ (ok r, db')
    → Written i old r db' × (r.state ≡ state)
unfolding set_state
set_state_ok now i state old r db db' found h = go (find_run i db.runs) refl h
  where
    checked :
        (row : EvalRunRow) (o : Result Error Unit)
        → ensure_state_transition row.state state ≡ o
        → find_run i db.runs ≡ some row
        → move_checked now state row o db ≡ (ok r, db')
        → Written i row r db' × (r.state ≡ state)
    checked row (err x) k f h = cc
    checked row (ok m) k f h =
        let (w, same) =
          saved i row (moved now state row) r db db' f refl (moved-RunGrows now state row k) h in
        (w, ap (λ (x : EvalRunRow). x.state) (sym same))

    go :
        (o : Option EvalRunRow)
        → find_run i db.runs ≡ o
        → continue (move_on now state) (or_raise o key_error db) ≡ (ok r, db')
        → Written i old r db' × (r.state ≡ state)
    go none e h = cc
    go (some row) e h =
        subst (λ (x : EvalRunRow). Written i x r db' × (r.state ≡ state))
          (some_same row old (sym e ∙ found))
          (checked row (ensure_state_transition row.state state) refl e h)

pub set_progress_ok :
    (i done total : ℕ) (old r : EvalRunRow) (db db' : Database)
    → find_run i db.runs ≡ some old
    → set_progress i (pos done) (pos total) db ≡ (ok r, db')
    → Written i old r db'
unfolding set_progress
set_progress_ok i done total old r db db' found h = bad (ltb total done) h
  where
    counted :
        (row : EvalRunRow) (b c : Bool)
        → find_run i db.runs ≡ some row
        → (if b
            then (err value_error, db)
            else (if not c
                then (err value_error, db)
                else save_run (record row { completed_queries = done; total_queries = total }) db))
          ≡ (ok r, db')
        → Written i row r db'
    counted row true c f h = cc
    counted row false false f h = cc
    counted row false true f h =
        (saved i row (record row { completed_queries = done; total_queries = total }) r db db' f
          refl (counted-RunGrows done total row) h).0

    go :
        (o : Option EvalRunRow)
        → find_run i db.runs ≡ o
        → continue (progress_on done total) (or_raise o key_error db) ≡ (ok r, db')
        → Written i old r db'
    go none e h = cc
    go (some row) e h =
        subst (λ (x : EvalRunRow). Written i x r db') (some_same row old (sym e ∙ found))
          (counted row (ltb done row.completed_queries)
            (row.total_queries == 0 || row.total_queries == total) e h)

    bad :
        (b : Bool)
        → continue
            (progress_on done total)
            (continue (λ checked. load_run i) (raise_if b value_error db))
          ≡ (ok r, db')
        → Written i old r db'
    bad true h = cc
    bad false h = go (find_run i db.runs) refl h
