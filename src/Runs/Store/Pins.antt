-- ===== src/Runs/Store/Pins.antt =====
-- An index that is pinned for a variant of a run stays pinned, whatever is done to the runs
-- afterwards (src/ragops/persistence/repositories.py).
mod Tests
use rag_eval_platform.Prelude.{
  ℕ, inl, inr, ◌||◌, Option, List, [], ◌∷◌, ltb, Option-cases, transaction, commit_keeps, ℤ,
  pos_part, is_negative,
}
use rag_eval_platform.Prelude.Dict.{Dict}
use rag_eval_platform.Runs.{EvalRunState, EvalRunSpec}
use rag_eval_platform.Runs.Store.{
  JudgeVerdict, Database, EvalQueryResultRow, create, pin_on, pin_index_fingerprint, move_on,
  set_state, set_progress,
}
use rag_eval_platform.Runs.Results.{find_result, add_result, update_answer, update_judges}
use rag_eval_platform.Generation.{AnswerResponse}
use rag_eval_platform.Runs.Store.Pinned.{
  IsPinned, on_row-IsPinned, pin_on-IsPinned, move_on-IsPinned, create-IsPinned,
  insert_result-IsPinned, set_progress-IsPinned,
}

-- what the repositories do to the runs, each in a transaction of its own
pub data RunOp : Type 0 where
  create_op : ℕ → ℕ → EvalRunSpec → Dict ℕ → Option ℕ → Option ℕ → RunOp
  pin_op : ℕ → ℕ → ℕ → RunOp
  state_op : ℕ → ℕ → EvalRunState → RunOp
  progress_op : ℕ → ℤ → ℤ → RunOp
  result_op : EvalQueryResultRow → RunOp
  answer_op : ℕ → ℕ → ℕ → AnswerResponse → Dict ℕ → Option ℕ → RunOp
  judges_op : ℕ → ℕ → ℕ → Dict JudgeVerdict → RunOp

unfoldable pub perform : RunOp → Database → Database
perform (create_op i stamp spec hashes git digest) db =
    (transaction (create i stamp spec hashes git digest) db).1
perform (pin_op i variant fingerprint) db =
    (transaction (pin_index_fingerprint i variant fingerprint) db).1
perform (state_op now i state) db = (transaction (set_state now i state) db).1
perform (progress_op i done total) db = (transaction (set_progress i done total) db).1
perform (result_op row) db = (transaction (add_result row) db).1
perform (answer_op i q v answer scores gold) db =
    (transaction (update_answer i q v answer scores gold) db).1
perform (judges_op i q v verdicts) db = (transaction (update_judges i q v verdicts) db).1

unfoldable pub run : List RunOp → Database → Database
unfolding perform
run [] db = db
run (op ∷ ops) db = run ops (perform op db)

module _ (i variant fingerprint : ℕ) where
  perform-IsPinned :
      (op : RunOp) (db : Database)
      → IsPinned i variant fingerprint db
      → IsPinned i variant fingerprint (perform op db)
  unfolding perform create pin_index_fingerprint set_state set_progress add_result update_answer
      update_judges
  perform-IsPinned (create_op j stamp spec hashes git digest) db p =
      commit_keeps (IsPinned i variant fingerprint) db (create j stamp spec hashes git digest db) p
        (create-IsPinned i variant fingerprint j stamp spec hashes git digest db p)
  perform-IsPinned (pin_op j v f) db p =
      on_row-IsPinned i variant fingerprint (pin_on v f) j db
        (λ row e found q. pin_on-IsPinned i variant fingerprint v f db row found q) p
  perform-IsPinned (state_op now j state) db p =
      on_row-IsPinned i variant fingerprint (move_on now state) j db
        (λ row e found q. move_on-IsPinned i variant fingerprint now state db row found q) p
  perform-IsPinned (progress_op j done total) db p =
      set_progress-IsPinned i variant fingerprint j (pos_part done) (pos_part total)
        (is_negative done || is_negative total || ltb (pos_part total) (pos_part done)) db p
  perform-IsPinned (result_op row) db p =
      commit_keeps (IsPinned i variant fingerprint) db (add_result row db) p (
        insert_result-IsPinned i variant fingerprint row
          (find_result row.eval_run_id row.variant row.query_id db.results) db p)
  perform-IsPinned (answer_op j q v answer scores gold) db p =
      elim (Option-cases (find_result j v q db.results)) [
        | inl e ↦ rw (e, perform, update_answer) p
        | inr (r, e) ↦ rw (e, perform, update_answer) p
      ]
  perform-IsPinned (judges_op j q v verdicts) db p =
      elim (Option-cases (find_result j v q db.results)) [
        | inl e ↦ rw (e, perform, update_judges) p
        | inr (r, e) ↦ rw (e, perform, update_judges) p
      ]

  -- Once the index of a variant of a run is pinned, every sequence of repository transactions, be they
  -- other pins, moves, progress, results or further runs, leaves the run there with the same
  -- fingerprint pinned for the variant.
  run-IsPinned :
      (ops : List RunOp) (db : Database)
      → IsPinned i variant fingerprint db
      → IsPinned i variant fingerprint (run ops db)
  unfolding run
  run-IsPinned [] db p = p
  run-IsPinned (op ∷ ops) db p = run-IsPinned ops (perform op db) (perform-IsPinned op db p)
