-- ===== src/Runner/Rules.antt =====
-- Rules for the runner's own transactions (src/ragops/evaluation/runner.py).
use rag_eval_platform.Prelude.{ℕ, ◌≡◌, sym, ap, ◌∙◌, subst, some, ok, or_raise, pos, key_error}
use rag_eval_platform.Runs.{EvalRunState}
use rag_eval_platform.Runs.Store.{
  Database, Session, EvalRunRow, find_run, load_run, set_state, set_progress,
}
use rag_eval_platform.Runner.{get_run, enter_state, enter_progress}
use rag_eval_platform.Runs.Store.Rows.{RunGrows, RunGrows-refl, RunGrows-trans}
use rag_eval_platform.Runs.Store.Evolution.{Evolves}
use rag_eval_platform.Runs.Store.Evolution.Steps.{set_state-Evolves, set_progress-Evolves}
use rag_eval_platform.Runs.Store.Pinned.{find_run-id}
use rag_eval_platform.Runner.Triples.{After, Triple, Grows, call_rule}
use rag_eval_platform.Runner.Facts.{Exists, Known, Known-Grows, set_state_ok, set_progress_ok}

pub Exists-Grows : (i : ℕ) → Grows (Exists i)
Exists-Grows i a b g (r, e) = let (r', e', k) = g.runs_grow i r e in (r', e')

-- a session's step that returned, among the steps that take the database forward
pub returned-Evolves :
    {A : Type 0} (m : Session A) (a : A) (db db' : Database)
    → Evolves db (m db).1
    → m db ≡ (ok a, db')
    → Evolves db db'
returned-Evolves m a db db' g e = subst (λ (d : Database). Evolves db d) (ap (λ p. p.1) e) g

-- what is known of the run, and a fact that stays
abbrev pub K : ℕ → EvalRunRow → (Database → Type 0) → EvalRunRow → Database → Type 0
K i first F row db = Known i first row db × F db

module _ (i : ℕ) (first : EvalRunRow) (F : Database → Type 0) (F-Grows : Grows F) where
  pub K-Grows : (row : EvalRunRow) → Grows (K i first F row)
  K-Grows row a b g (k, f) = (Known-Grows i first row a b g k, F-Grows a b g f)

  pub falls : (row : EvalRunRow) (db : Database) → K i first F row db → Exists i db
  falls row db (k, f) = let (r, e, g) = k.seen in (r, e)

  learn :
      (row old r : EvalRunRow) (db : Database)
      → RunGrows first row
      → RunGrows row old
      → find_run i db.runs ≡ some r
      → RunGrows old r
      → Known i first r db × RunGrows row r
  learn row old r db since seen e g =
      let grown : RunGrows row r = RunGrows-trans row old r seen g in
      (
        record {
          named = find_run-id i db.runs r e;
          seen = (r, e, RunGrows-refl r);
          since = RunGrows-trans first row r since grown;
        },
        grown,
      )

  module _ (row : EvalRunRow) where
    pub enter_state_rule :
        (state : EvalRunState)
        → Triple
            (K i first F row)
            (enter_state row.id state)
            (λ r db. K i first F r db × (RunGrows row r × (r.state ≡ state)))
            (Exists i)
    enter_state_rule state w (k, f) =
        subst
          (λ (n : ℕ).
            After (λ r db. K i first F r db × (RunGrows row r × (r.state ≡ state))) (Exists i)
              (enter_state n state w))
          (sym k.named)
          (call_rule (Exists i) (K i first F row) (falls row) (K-Grows row)
            (λ r db. K i first F r db × (RunGrows row r × (r.state ≡ state)))
            (λ now. set_state now i state) step w (k, f))
      where
        step :
            (now : ℕ) (db : Database) (r : EvalRunRow) (db' : Database)
            → K i first F row db
            → set_state now i state db ≡ (ok r, db')
            → K i first F r db' × (RunGrows row r × (r.state ≡ state))
        step now db r db' (k, f) e =
            let (old, found, seen) = k.seen in
            let ((found', g), same) = set_state_ok now i state old r db db' found e in
            let (known, grown) = learn row old r db' k.since seen found' g in
            let forward : Evolves db db' =
              returned-Evolves (set_state now i state) r db db' (set_state-Evolves now i state db)
                e in
            ((known, F-Grows db db' forward f), (grown, same))

    pub enter_progress_rule :
        (done total : ℕ)
        → Triple
            (K i first F row)
            (enter_progress row.id done total)
            (λ r db. K i first F r db × RunGrows row r)
            (Exists i)
    enter_progress_rule done total w (k, f) =
        subst
          (λ (n : ℕ).
            After (λ r db. K i first F r db × RunGrows row r) (Exists i)
              (enter_progress n done total w))
          (sym k.named)
          (call_rule (Exists i) (K i first F row) (falls row) (K-Grows row)
            (λ r db. K i first F r db × RunGrows row r)
            (λ now. set_progress i (pos done) (pos total)) step w (k, f))
      where
        step :
            (now : ℕ) (db : Database) (r : EvalRunRow) (db' : Database)
            → K i first F row db
            → set_progress i (pos done) (pos total) db ≡ (ok r, db')
            → K i first F r db' × RunGrows row r
        step now db r db' (k, f) e =
            let (old, found, seen) = k.seen in
            let (found', g) = set_progress_ok i done total old r db db' found e in
            let (known, grown) = learn row old r db' k.since seen found' g in
            let forward : Evolves db db' =
              returned-Evolves (set_progress i (pos done) (pos total)) r db db'
                (set_progress-Evolves i (pos done) (pos total) db) e in
            ((known, F-Grows db db' forward f), grown)

    pub get_run_rule :
        Triple
          (K i first F row)
          (get_run row.id)
          (λ r db. K i first F r db × RunGrows row r)
          (Exists i)
    get_run_rule w (k, f) =
        subst
          (λ (n : ℕ). After (λ r db. K i first F r db × RunGrows row r) (Exists i) (get_run n w))
          (sym k.named)
          (call_rule (Exists i) (K i first F row) (falls row) (K-Grows row)
            (λ r db. K i first F r db × RunGrows row r) (λ now. load_run i) step w (k, f))
      where
        step :
            (now : ℕ) (db : Database) (r : EvalRunRow) (db' : Database)
            → K i first F row db
            → load_run i db ≡ (ok r, db')
            → K i first F r db' × RunGrows row r
        step now db r db' (k, f) e =
            let (old, found, seen) = k.seen in
            let loaded : (ok old, db) ≡ (ok r, db') =
              ap (λ o. or_raise o key_error db) (sym found) ∙ e in
            let same : old ≡ r = cc (loaded) in
            let stays : db ≡ db' = ap (λ p. p.1) loaded in
            let found' : find_run i db'.runs ≡ some r =
              ap (λ (d : Database). find_run i d.runs) (sym stays)
              ∙ found
              ∙ ap (λ (x : EvalRunRow). some x) same in
            let (known, grown) =
              learn row old r db' k.since seen found'
                (subst (λ (x : EvalRunRow). RunGrows old x) same (RunGrows-refl old)) in
            ((known, subst F stays f), grown)
