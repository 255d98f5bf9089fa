-- ===== src/Runner/Failing.antt =====
-- A run that fails is marked as failed: `_mark_failed` of src/ragops/evaluation/runner.py.
use rag_eval_platform.Prelude.{
  ℕ, ◌≤◌, ◌≡◌, refl, sym, ap, ◌∙◌, subst, inl, inr, true, false, some, List, [], ◌∷◌, arith,
  Bool-cases, Result, ok, err, pure, transaction, continue, commit, Error,
}
use rag_eval_platform.Runs.{
  EvalRunState, created, queued, preparing, retrieving, generating, judging, scoring, completed,
  failed, cancelled, place, state_in, finished_states, ensure_state_transition,
}
use rag_eval_platform.Runs.Store.{Database, EvalRunRow, find_run, update_run, moved, set_state}
use rag_eval_platform.Runs.Store.Pins.{run}
use rag_eval_platform.Runner.{
  Turn, World, after_turn, wait, in_transaction, get_run, enter_state, fail_unless, mark_failed,
}
use rag_eval_platform.Runs.Store.Evolution.{transaction-Evolves}
use rag_eval_platform.Runs.Store.Evolution.Steps.{run-Evolves, set_state-Evolves}
use rag_eval_platform.Runner.Triples.{Grows}
use rag_eval_platform.Runner.Facts.{Exists, set_state_ok}
use rag_eval_platform.Runner.Rules.{Exists-Grows}

pub finished_of_place : (s : EvalRunState) → 7 ≤ place s → state_in s finished_states ≡ true
finished_of_place created h = absurd (omega arith)
finished_of_place queued h = absurd (omega arith)
finished_of_place preparing h = absurd (omega arith)
finished_of_place retrieving h = absurd (omega arith)
finished_of_place generating h = absurd (omega arith)
finished_of_place judging h = absurd (omega arith)
finished_of_place scoring h = absurd (omega arith)
finished_of_place completed h = refl
finished_of_place failed h = refl
finished_of_place cancelled h = refl

-- A run that is not finished can fail.
can_fail :
    (s : EvalRunState)
    → state_in s finished_states ≡ false
    → ensure_state_transition s failed ≡ ok tt
unfolding ensure_state_transition
can_fail created h = refl
can_fail queued h = refl
can_fail preparing h = refl
can_fail retrieving h = refl
can_fail generating h = refl
can_fail judging h = refl
can_fail scoring h = refl
can_fail completed h = cc
can_fail failed h = cc
can_fail cancelled h = cc

-- the run is completed, failed or cancelled
abbrev pub Stopped : ℕ → Database → Type 0
Stopped i db =
    (r : EvalRunRow) × (find_run i db.runs ≡ some r) × (state_in r.state finished_states ≡ true)

Stopped-Grows : (i : ℕ) → Grows (Stopped i)
Stopped-Grows i a b g (r, e, h) =
    let (r', e', k) = g.runs_grow i r e in
    (r', e', ap (λ s. state_in s finished_states) (k.ended h) ∙ h)

wait-Exists : (i : ℕ) (w : World) → Exists i w.db → Exists i (wait w).db
wait-Exists i w p = go w.turns
  where
    go : (turns : List Turn) → Exists i (after_turn turns w).db
    go [] = p
    go (t ∷ turns) = Exists-Grows i w.db (run t.others w.db) (run-Evolves t.others w.db) p

pub get_run-ok :
    (i : ℕ) (w : World) (r : EvalRunRow)
    → find_run i (wait w).db.runs ≡ some r
    → get_run i w ≡ (ok r, wait w)
unfolding in_transaction
get_run-ok i w r e = rw (e, in_transaction) refl

module _ (i : ℕ) where
  -- a move to FAILED, which is refused only where the run is finished already
  move_to_failed :
      (now : ℕ) (db : Database) (r : EvalRunRow)
      → find_run i db.runs ≡ some r
      → Stopped i (transaction (set_state now i failed) db).1
  unfolding set_state
  move_to_failed now db r e = elim (Bool-cases (state_in r.state finished_states)) [
    | inl k ↦
        Stopped-Grows i db (transaction (set_state now i failed) db).1
          (transaction-Evolves (set_state now i failed) db (set_state-Evolves now i failed db))
          (r, e, k)
    | inr k ↦ moves (set_state now i failed db) refl (accepted (can_fail r.state k))
  ]
    where
      Returns : Result Error EvalRunRow × Database → Type 0
      Returns out = (a : EvalRunRow) × ((d : Database) × (out ≡ (ok a, d)))

      accepted :
          ensure_state_transition r.state failed ≡ ok tt → Returns (set_state now i failed db)
      accepted k = (
        moved now failed r,
        (record db { runs = update_run r.id (moved now failed r) db.runs }, rw (e, k) refl),
      )

      moves :
          (out : Result Error EvalRunRow × Database)
          → set_state now i failed db ≡ out
          → Returns out
          → Stopped i (commit db out).1
      moves (err x, d) h (a, (d', k)) = cc
      moves (ok a, d) h s =
          let ((found, g), state) = set_state_ok now i failed r a db d e h in
          (a, found, ap (λ s. state_in s finished_states) state)

  fail_unless_stops :
      (r : EvalRunRow) (w : World)
      → find_run i w.db.runs ≡ some r
      → Stopped i (fail_unless i r w).1.db
  unfolding in_transaction
  fail_unless_stops r w e = elim (Bool-cases (state_in r.state finished_states)) [
    | inl k ↦ rw k (r, e, k)
    | inr k ↦ rw k (done (enter_state i failed w) entered)
  ]
    where
      entered : Stopped i (enter_state i failed w).1.db
      entered =
          let (r', e') = wait-Exists i w (r, e) in move_to_failed (wait w).now (wait w).db r' e'

      done :
          (out : Result Error EvalRunRow × World)
          → Stopped i out.1.db
          → Stopped i (continue (λ row. pure {E = Error} tt) out).1.db
      done (ok a, w') s = s
      done (err x, w') s = s

  -- After `_mark_failed`, whether it returns or raises, the run is finished.
  pub mark_failed_stops : (w : World) → Exists i w.db → Stopped i (mark_failed i w).1.db
  unfolding mark_failed
  mark_failed_stops w p =
      let (r, e) = wait-Exists i w p in
      subst (λ out. Stopped i (continue (fail_unless i) out).1.db) (sym (get_run-ok i w r e))
        (fail_unless_stops r (wait w) e)
