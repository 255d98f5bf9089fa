-- ===== src/Runner/Ending.antt =====
-- How `run` ends (src/ragops/evaluation/runner.py).
mod Tests
use rag_eval_platform.Prelude.{
  ℕ, ◌≤◌, ◌≡◌, refl, sym, ap, ◌∙◌, subst, ◌≢◌, ◌⊎◌, inl, inr, true, false, ◌||◌, some, arith,
  Bool-cases, Result, ok, err, raise, continue, Error, value_error,
}
use rag_eval_platform.Runs.{created, completed, place, same_state, state_in, finished_states}
use rag_eval_platform.Runs.Store.{EvalRunRow, find_run}
use rag_eval_platform.Runner.{EvaluationRunner, World, wait, mark_failed}
use rag_eval_platform.Runner.Running.{
  run_retrieval, or_failed, guarded, unavailable, dispatch, run_evaluation,
}
use rag_eval_platform.Runs.Store.Rows.{RunGrows-refl}
use rag_eval_platform.Runs.Store.Pinned.{find_run-id}
use rag_eval_platform.Runner.Triples.{After}
use rag_eval_platform.Runner.Facts.{Exists}
use rag_eval_platform.Runner.Whole.{Whole}
use rag_eval_platform.Runner.Start.{Finished, run_retrieval_rule}
use rag_eval_platform.Runner.Failing.{finished_of_place, get_run-ok, mark_failed_stops, Stopped}

module _ (e : EvaluationRunner) (i : ℕ) (r : EvalRunRow) where
  -- how the guarded part ends, for the row that was read
  data Ends (out : Result Error EvalRunRow × World) : Type 0 where
    returned :
        (r' : EvalRunRow) (w : World)
        → out ≡ (ok r', w)
        → Finished e i r (place r.state ≤ 2) r' w.db
        → Ends out
    raised : (x : Error) (w : World) → out ≡ (err x, w) → Stopped i w.db → Ends out

  guarded-Ends :
      (w : World) → find_run i w.db.runs ≡ some r → 1 ≤ place r.state → Ends (guarded e i r w)
  guarded-Ends w found h = go (run_retrieval e r w) (
      run_retrieval_rule e i r h w (
        record {
          named = find_run-id i w.db.runs r found;
          seen = (r, found, RunGrows-refl r);
          since = RunGrows-refl r;
        },
        tt,
      ))
    where
      again :
          (x : Error) (out : Result Error Unit × World)
          → Stopped i out.1.db
          → Ends (continue (λ u. raise {A = EvalRunRow} x) out)
      again x (ok u, w') s = raised x w' refl s
      again x (err y, w') s = raised y w' refl s

      go :
          (out : Result Error EvalRunRow × World)
          → After (Finished e i r (place r.state ≤ 2)) (Exists i) out
          → Ends (or_failed e i out)
      go (ok r', w') f = returned r' w' refl f
      go (err x, w') p = again x (mark_failed i w') (mark_failed_stops i w' p)

  not_created : same_state r.state created ≡ false → 1 ≤ place r.state
  not_created h = ground (arith, h)

module _ (e : EvaluationRunner) (i : ℕ) (w : World) (r : EvalRunRow)
    (found : find_run i (wait w).db.runs ≡ some r) where
  after_read : run_evaluation e i w ≡ dispatch e i r (wait w)
  unfolding run_evaluation
  after_read = ap (λ out. continue (dispatch e i) out) (get_run-ok i w r found)

  -- `run` on a run that it finds, whatever other processes commit meanwhile and however the services
  -- answer, ends in one of four ways: the run was finished, and is returned as it is with nothing
  -- done; the run was CREATED, or it needs a service that the runner does not have, and a ValueError is
  -- raised with nothing done; the run is returned in a finished state that the table has, too; or an
  -- exception is raised and the run in the table is completed, failed or cancelled. No run is left
  -- behind in a state in between.
  pub run_evaluation_ends :
      ((state_in r.state finished_states ≡ true) × (run_evaluation e i w ≡ (ok r, wait w)))
      ⊎ (((state_in r.state finished_states ≡ false)
            × ((same_state r.state created || unavailable e r.spec) ≡ true)
            × (run_evaluation e i w ≡ (err value_error, wait w)))
          ⊎ (((r' : EvalRunRow) × (w' : World) × (run_evaluation e i w ≡ (ok r', w'))
                × (state_in r'.state finished_states ≡ true)
                × ((s : EvalRunRow) × (find_run i w'.db.runs ≡ some s) × (s.state ≡ r'.state)))
              ⊎ ((x : Error) × (w' : World) × (run_evaluation e i w ≡ (err x, w'))
                  × Stopped i w'.db)))
  run_evaluation_ends = elim (Bool-cases (state_in r.state finished_states)) [
    | inl k ↦ inl (k, after_read ∙ rw k refl)
    | inr k ↦ inr (elim (Bool-cases (same_state r.state created || unavailable e r.spec)) [
      | inl l ↦ inl (k, l, after_read ∙ rw (k, l) refl)
      | inr l ↦ inr (
          conclude (after_read ∙ rw (k, l) refl)
            (guarded-Ends e i r (wait w) found (not_created e i r (ground (arith, l)))))
    ])
  ]
    where
      conclude :
          run_evaluation e i w ≡ guarded e i r (wait w)
          → Ends e i r (guarded e i r (wait w))
          → ((r' : EvalRunRow) × (w' : World) × (run_evaluation e i w ≡ (ok r', w'))
              × (state_in r'.state finished_states ≡ true)
              × ((s : EvalRunRow) × (find_run i w'.db.runs ≡ some s) × (s.state ≡ r'.state)))
            ⊎ ((x : Error) × (w' : World) × (run_evaluation e i w ≡ (err x, w')) × Stopped i w'.db)
      conclude h (returned r' w' same f) =
          let (s, seen, g) = f.0.0.seen in
          let over : state_in r'.state finished_states ≡ true = finished_of_place r'.state f.1.0 in
          inl (r', w', h ∙ same, over, (s, seen, g.ended over))
      conclude h (raised x w' same s) = inr (x, w', h ∙ same, s)

  -- A run that `run` picks up QUEUED or PREPARING and returns COMPLETED is whole: each query of the
  -- sample that its specification selects from the ingested split has a stored result for each variant,
  -- whatever other processes committed meanwhile.
  pub completed-Whole :
      1 ≤ place r.state
      → place r.state ≤ 2
      → (r' : EvalRunRow) (w' : World) → run_evaluation e i w ≡ (ok r', w')
      → r'.state ≡ completed
      → Whole e i r.spec w'.db
  completed-Whole h l r' w' same c =
      elim (Bool-cases (same_state r.state created || unavailable e r.spec)) [
        | inl m ↦ absurd (clash (sym same ∙ after_read ∙ rw (open_yet, m) refl))
        | inr m ↦
            conclude (sym same ∙ after_read ∙ rw (open_yet, m) refl)
              (guarded-Ends e i r (wait w) found h)
      ]
    where
      open_yet : state_in r.state finished_states ≡ false
      open_yet = ground arith

      clash : ◌≢◌ {A = Result Error EvalRunRow × World} (ok r', w') (err value_error, wait w)
      clash h = cc

      conclude :
          ◌≡◌ {A = Result Error EvalRunRow × World} (ok r', w') (guarded e i r (wait w))
          → Ends e i r (guarded e i r (wait w))
          → Whole e i r.spec w'.db
      conclude h (returned s u k f) =
          let both : ◌≡◌ {A = Result Error EvalRunRow × World} (ok r', w') (ok s, u) = h ∙ k in
          let row : r' ≡ s = cc (both) in
          let world : u ≡ w' = ap (λ p. p.1) (sym both) in
          subst (λ (x : World). Whole e i r.spec x.db) world
            (f.1.1 l (ap (λ (x : EvalRunRow). x.state) (sym row) ∙ c))
      conclude h (raised x u k s) = absurd (cc (h, k))
