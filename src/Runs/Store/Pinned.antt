-- ===== src/Runs/Store/Pinned.antt =====
-- No step on the runs loses a pinned index (src/ragops/persistence/repositories.py).
use rag_eval_platform.Prelude.{
  ℕ, ◌≡◌, refl, sym, ap, ◌∙◌, subst, inl, inr, Bool, true, false, ◌||◌, Option, none, some, List,
  [], ◌∷◌, ◌++◌, arith, ltb, ◌==◌, Bool-cases, all, contains, ==_refl, Result, ok, err, or_raise,
  continue, commit, commit_keeps, raise_if, Error, value_error, key_error,
}
use rag_eval_platform.Prelude.Dict.{Dict, lookup, insert, keys, lookup-insert}
use rag_eval_platform.Runs.{EvalRunState, ensure_state_transition, EvalRunSpec}
use rag_eval_platform.Runs.Store.{
  Database, Session, EvalRunRow, EvalQueryResultRow, find_run, update_run, load_run, create,
  drifted, pin_on, moved, move_checked, move_on, progress_on,
}
use rag_eval_platform.Runs.Results.{result_count, count_result, insert_result}

pub find_run-id :
    (i : ℕ) (runs : List EvalRunRow) (r : EvalRunRow) → find_run i runs ≡ some r → r.id ≡ i
find_run-id i [] r h = cc
find_run-id i (x ∷ runs) r h = ground (arith, find_run-id i runs r)

pub find_run-append :
    (i : ℕ) (runs : List EvalRunRow) (r x : EvalRunRow)
    → find_run i runs ≡ some r
    → find_run i (runs ++ x ∷ []) ≡ some r
find_run-append i [] r x h = cc
find_run-append i (y ∷ runs) r x h = ground (arith, find_run-append i runs r x)

pub find_run-other :
    (i : ℕ) (r' : EvalRunRow) (runs : List EvalRunRow)
    → (i == r'.id) ≡ false
    → find_run i (update_run r'.id r' runs) ≡ find_run i runs
find_run-other i r' [] h = refl
find_run-other i r' (x ∷ runs) h = ground (arith, find_run-other i r' runs)

pub find_run-own :
    (r r' : EvalRunRow) (runs : List EvalRunRow)
    → find_run r'.id runs ≡ some r
    → find_run r'.id (update_run r'.id r' runs) ≡ some r'
find_run-own r r' [] h = cc
find_run-own r r' (x ∷ runs) h = ground (arith, find_run-own r r' runs, ==_refl r'.id)

module _ (i variant fingerprint : ℕ) where
  -- the run is there, and its index for the variant is pinned
  abbrev pub IsPinned : Database → Type 0
  IsPinned db =
      (r : EvalRunRow) × (find_run i db.runs ≡ some r)
      × (lookup variant r.index_fingerprints ≡ some fingerprint)

  save_run-IsPinned :
      (row row' : EvalRunRow) (db : Database)
      → find_run row'.id db.runs ≡ some row
      → (lookup variant row.index_fingerprints ≡ some fingerprint
          → lookup variant row'.index_fingerprints ≡ some fingerprint)
      → IsPinned db
      → IsPinned (record db { runs = update_run row'.id row' db.runs })
  save_run-IsPinned row row' db found keep (r, h, p) = elim (Bool-cases (i == row'.id)) [
    | inl k ↦
        let m : i ≡ row'.id = ground (arith, k) in
        let same : r ≡ row =
          some_same r row (sym h ∙ ap (λ (n : ℕ). find_run n db.runs) m ∙ found) in
        (
          row',
          ap (λ (n : ℕ). find_run n (update_run row'.id row' db.runs)) m
              ∙ find_run-own row row' db.runs found,
          keep (
              subst (λ (x : EvalRunRow). lookup variant x.index_fingerprints ≡ some fingerprint)
                same p),
        )
    | inr k ↦ (r, find_run-other i row' db.runs k ∙ h, p)
  ]
    where
      some_same : (x y : EvalRunRow) → some x ≡ some y → x ≡ y
      some_same x y e = cc

  -- a step on one row, which keeps its id
  pub on_row-IsPinned :
      {A : Type 0} (step : EvalRunRow → Session A) (j : ℕ) (db : Database)
      → ((row : EvalRunRow)
          → row.id ≡ j
          → find_run row.id db.runs ≡ some row
          → IsPinned db
          → IsPinned (step row db).1)
      → IsPinned db
      → IsPinned (commit db (continue step (load_run j db))).1
  on_row-IsPinned step j db each p = go (find_run j db.runs) refl
    where
      go :
          (o : Option EvalRunRow)
          → find_run j db.runs ≡ o
          → IsPinned (commit db (continue step (or_raise o key_error db))).1
      go none e = p
      go (some row) e =
          let same : row.id ≡ j = find_run-id j db.runs row e in
          commit_keeps IsPinned db (step row db) p
            (each row same (ap (λ (n : ℕ). find_run n db.runs) same ∙ e) p)

  pub pin_on-IsPinned :
      (v f : ℕ) (db : Database) (row : EvalRunRow)
      → find_run row.id db.runs ≡ some row
      → IsPinned db
      → IsPinned (pin_on v f row db).1
  pin_on-IsPinned v f db row found p = elim (Bool-cases (contains v row.spec.variants)) [
    | inl a ↦ elim (Bool-cases (drifted f (lookup v row.index_fingerprints))) [
      | inl b ↦ rw (a, b) p
      | inr b ↦
          rw (a, b)
            (save_run-IsPinned row
              (record row { index_fingerprints = insert v f row.index_fingerprints }) db found
              (λ h. keep b h) p)
    ]
    | inr a ↦ rw a p
  ]
    where
      same_fingerprint : drifted f (some fingerprint) ≡ false → some f ≡ some fingerprint
      same_fingerprint d = ground arith

      keep :
          drifted f (lookup v row.index_fingerprints) ≡ false
          → lookup variant row.index_fingerprints ≡ some fingerprint
          → lookup variant (insert v f row.index_fingerprints) ≡ some fingerprint
      keep d h =
          lookup-insert variant v f row.index_fingerprints ∙ elim (Bool-cases (variant == v)) [
            | inl k ↦
                let m : v ≡ variant = ground (arith, k) in
                let l : lookup v row.index_fingerprints ≡ some fingerprint =
                  ap (λ (n : ℕ). lookup n row.index_fingerprints) m ∙ h in
                rw k (same_fingerprint (ap (drifted f) (sym l) ∙ d))
            | inr k ↦ rw k h
          ]

  pub move_on-IsPinned :
      (now : ℕ) (state : EvalRunState) (db : Database) (row : EvalRunRow)
      → find_run row.id db.runs ≡ some row
      → IsPinned db
      → IsPinned (move_on now state row db).1
  move_on-IsPinned now state db row found p = go (ensure_state_transition row.state state)
    where
      go : (o : Result Error Unit) → IsPinned (move_checked now state row o db).1
      go (err e) = p
      go (ok m) = save_run-IsPinned row (moved now state row) db found (λ h. h) p

  progress_on-IsPinned :
      (done total : ℕ) (db : Database) (row : EvalRunRow)
      → find_run row.id db.runs ≡ some row
      → IsPinned db
      → IsPinned (progress_on done total row db).1
  progress_on-IsPinned done total db row found p =
      elim (Bool-cases (ltb done row.completed_queries)) [
        | inl a ↦ rw a p
        | inr a ↦ elim (Bool-cases (row.total_queries == 0 || row.total_queries == total)) [
          | inl b ↦
              rw (a, b)
                (save_run-IsPinned row
                  (record row { completed_queries = done; total_queries = total }) db found (λ h. h)
                  p)
          | inr b ↦ rw (a, b) p
        ]
      ]

  pub create-IsPinned :
      (j stamp : ℕ) (spec : EvalRunSpec) (hashes : Dict ℕ) (git digest : Option ℕ) (db : Database)
      → IsPinned db
      → IsPinned (create j stamp spec hashes git digest db).1
  unfolding create
  create-IsPinned j stamp spec hashes git digest db (r, h, p) =
      elim (Bool-cases (all (λ v. contains v (keys hashes)) spec.variants)) [
        | inl a ↦ rw a (r, find_run-append i db.runs r _ h, p)
        | inr a ↦ rw a (r, h, p)
      ]

  count_result-IsPinned :
      (row : EvalQueryResultRow) (run : Option EvalRunRow) (rows : List EvalQueryResultRow)
      (done : ℕ) (db : Database)
      → find_run row.eval_run_id db.runs ≡ run
      → IsPinned db
      → IsPinned (count_result done run (record db { results = rows })).1
  count_result-IsPinned row none rows done db e p = p
  count_result-IsPinned row (some r) rows done db e p =
      elim (Bool-cases (ltb r.total_queries done)) [
        | inl a ↦ rw a p
        | inr a ↦ rw a (
            save_run-IsPinned r (record r { completed_queries = done }) db
              (ap (λ (n : ℕ). find_run n db.runs) (find_run-id row.eval_run_id db.runs r e) ∙ e)
              (λ h. h) p)
      ]

  pub insert_result-IsPinned :
      (row : EvalQueryResultRow) (old : Option EvalQueryResultRow) (db : Database)
      → IsPinned db
      → IsPinned (insert_result row old db).1
  insert_result-IsPinned row (some old) db p = p
  insert_result-IsPinned row none db p =
      count_result-IsPinned row (find_run row.eval_run_id db.runs) (db.results ++ row ∷ [])
        (result_count row.eval_run_id (db.results ++ row ∷ [])) db refl p

  pub set_progress-IsPinned :
      (j done total : ℕ) (bad : Bool) (db : Database)
      → IsPinned db
      → IsPinned
          (commit db (
            continue
              (progress_on done total)
              (continue (λ checked. load_run j) (raise_if bad value_error db)))).1
  set_progress-IsPinned j done total true db p = p
  set_progress-IsPinned j done total false db p =
      on_row-IsPinned (progress_on done total) j db
        (λ row e found q. progress_on-IsPinned done total db row found q) p
