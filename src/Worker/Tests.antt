-- ===== src/Worker/Tests.antt =====
-- Rounds of a worker on a small table, and the theorems at inputs that meet their hypotheses.
use rag_eval_platform.Prelude.{
  ◌≡◌, refl, inr, false, none, some, [], ◌∷◌, arith, ◌==◌, ok, err, pos, value_error,
}
use rag_eval_platform.Queue.{JobSpec, JobRow, Table, leased, completed, find, new_row, claim}
use rag_eval_platform.Queue.Invariant.{IsValid}
use rag_eval_platform.Worker.{Worker, returns, raises, Round, exception, settle, run_once}
use rag_eval_platform.Worker.Alone.{settle-fenced, run_once_completes}
use rag_eval_platform.Worker.Released.{IsReleased, run_once_releases}

abbrev worker : Worker
worker = record {
  worker_id = 9;
  lease_seconds = pos 30;
  retry_delay_seconds = pos 10;
  handles = λ kind. kind == 1;
  error_text = λ e. 7;
}

abbrev spec : JobSpec
spec = record {
  kind = 1;
  payload = 5;
  max_attempts = 2;
  idempotency_key = none;
  available_at = 100;
}

abbrev rows : Table
rows = new_row 1 10 spec ∷ []

abbrev job : JobRow
job = record (new_row 1 10 spec) {
  status = leased;
  attempt_count = 1;
  leased_by = some 9;
  lease_expires_at = some 30000200;
}

abbrev round : Round
round = record {
  now = 200;
  locked = λ i. false;
  beats = record { others = []; now = 10000000 } ∷ record { others = []; now = 20000000 } ∷ [];
  ending = returns;
  others = [];
  fail_now = 0;
}

abbrev bad_round : Round
bad_round = record round { ending = raises value_error; fail_now = 25000000 }

rows-IsValid : IsValid rows
rows-IsValid = ground arith

abbrev taken : Table
taken = record job { leased_by = some 8 } ∷ []

settle-fenced_example : (settle worker round job (err (exception value_error)) taken).1 ≡ taken
settle-fenced_example =
    settle-fenced worker round job (err (exception value_error)) taken (λ r h. ground arith)

run_once_completes_example :
    (done : JobRow) × ((run_once worker round rows).0 ≡ ok (some done))
    × (find 1 (run_once worker round rows).1 ≡ some done)
    × (done.id ≡ 1)
    × (done.status ≡ completed)
    × (done.leased_by ≡ none)
    × (done.attempt_count ≡ 1)
unfolding claim
run_once_completes_example =
    run_once_completes worker round rows job rows-IsValid refl refl ((refl, (refl, tt)), refl) refl

run_once_releases_example :
    (back : JobRow) × ((run_once worker bad_round rows).0 ≡ ok (some back))
    × (find 1 (run_once worker bad_round rows).1 ≡ some back)
    × IsReleased worker bad_round job back
    × (back.id ≡ 1)
    × (back.leased_by ≡ none)
    × (back.last_error ≡ some 7)
    × (back.attempt_count ≡ 1)
unfolding claim
run_once_releases_example =
    run_once_releases worker bad_round rows job value_error rows-IsValid refl (inr (refl, refl))
      ((refl, (refl, tt)), refl) refl
