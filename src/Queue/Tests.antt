-- ===== src/Queue/Tests.antt =====
-- Runs of the job queue on small tables, and the theorems at inputs that meet their hypotheses.
use rag_eval_platform.Prelude.{
  ℕ, ◌+◌, ◌≤◌, ◌≡◌, refl, Bool, false, none, some, List, [], ◌∷◌, map, arith, pos,
}
use rag_eval_platform.Queue.{
  leased, completed, failed, JobSpec, JobRow, Table, find, claim, heartbeat, complete, fail, cancel,
  enqueue, postgresql, sqlite, new_row,
}
use rag_eval_platform.Queue.Invariant.{IsValid}
use rag_eval_platform.Queue.Contract.{ClaimContract, claim_lem}
use rag_eval_platform.Queue.Lease.{
  released, Returned, HolderSpec, finished, claim-spares_live, complete_lem, fail_lem,
}
use rag_eval_platform.Queue.Submit.{EnqueueSpec, enqueue_lem, enqueue_twice, CancelSpec, cancel_lem}
use rag_eval_platform.Queue.Phases.{Reaches, phase_of}
use rag_eval_platform.Queue.Machine.{run_refines}
use rag_eval_platform.Queue.Trace.{
  Op, enqueue_op, claim_op, heartbeat_op, complete_op, fail_op, cancel_op, perform, AreAllowed, run,
  run-IsValid,
}
use rag_eval_platform.Queue.Attempts.{claims_of, claims_capped}
use rag_eval_platform.Queue.Terminal.{terminal_stays}

abbrev evaluation : JobSpec
evaluation = record {
  kind = 1;
  payload = 5;
  max_attempts = 2;
  idempotency_key = some 77;
  available_at = 100;
}

abbrev judging : JobSpec
judging = record {
  kind = 2;
  payload = 6;
  max_attempts = 1;
  idempotency_key = none;
  available_at = 50;
}

abbrev none_locked : ℕ → Bool
none_locked i = false

abbrev queued : Table
queued = new_row 1 10 evaluation ∷ new_row 2 11 judging ∷ []

abbrev lent : JobRow
lent = record (new_row 1 10 evaluation) {
  status = leased;
  attempt_count = 1;
  leased_by = some 8;
  lease_expires_at = some 30000200;
}

abbrev lending : Table
lending = lent ∷ new_row 2 11 judging ∷ []

-- two jobs are queued, the later one comes first, and the second claim takes the other
abbrev script : List Op
script =
    enqueue_op postgresql 1 10 evaluation
    ∷ enqueue_op sqlite 2 11 judging
    ∷ claim_op 200 none_locked 9 (pos 30)
    ∷ claim_op 200 none_locked 8 (pos 30)
    ∷ complete_op 2 9
    ∷ fail_op 300 1 8 4 (pos 10)
    ∷ claim_op 10000300 none_locked 8 (pos 30)
    ∷ heartbeat_op 20000000 1 8 (pos 30)
    ∷ claim_op 60000000 none_locked 9 (pos 30)
    ∷ []

script_statuses : map (λ r. r.status) (run script []) ≡ failed ∷ completed ∷ []
unfolding run perform enqueue claim complete fail heartbeat
script_statuses = refl

abbrev empty : Table
empty = []

empty-IsValid : IsValid empty
empty-IsValid = record { rows_valid = tt; ids_distinct = tt; keys_distinct = tt }

queued-IsValid : IsValid queued
queued-IsValid = ground arith

lending-IsValid : IsValid lending
lending-IsValid = ground arith

script-AreAllowed : AreAllowed script empty
unfolding perform enqueue claim complete fail heartbeat
script-AreAllowed = ground arith

run-IsValid_example : IsValid (run script empty)
run-IsValid_example = run-IsValid script empty script-AreAllowed empty-IsValid

claim_lem_example :
    ClaimContract 200 none_locked 9 (pos 30) queued (claim 200 none_locked 9 (pos 30) queued)
claim_lem_example = claim_lem 200 none_locked 9 (pos 30) queued queued-IsValid

claim-spares_live_example :
    let (out, after) = claim 30000100 none_locked 9 (pos 30) lending in
    (find 1 after ≡ some lent) × ¬ Returned out 1
claim-spares_live_example =
    claim-spares_live 30000100 none_locked 9 (pos 30) lending 1 lent lending-IsValid refl
      (refl, refl)

complete_lem_example : HolderSpec 1 8 finished lending (complete 1 8 lending)
complete_lem_example = complete_lem 1 8 lending

fail_lem_example :
    HolderSpec 1 8 (released 500 3 (pos 10)) lending (fail 500 1 8 3 (pos 10) lending)
fail_lem_example = fail_lem 500 1 8 3 (pos 10) lending refl

enqueue_lem_example :
    EnqueueSpec postgresql 3 12 evaluation queued (enqueue postgresql 3 12 evaluation queued)
enqueue_lem_example = enqueue_lem postgresql 3 12 evaluation queued

enqueue_twice_example :
    let (first, rows') = enqueue sqlite 1 10 evaluation empty in
    enqueue sqlite 2 11 evaluation rows' ≡ (first, rows')
enqueue_twice_example = enqueue_twice sqlite 1 2 10 11 evaluation evaluation 77 empty refl refl refl

cancel_lem_example : CancelSpec 1 lending (cancel 1 lending)
cancel_lem_example = cancel_lem 1 lending

abbrev retries : List Op
retries =
    fail_op 300 1 8 4 (pos 0)
    ∷ claim_op 400 none_locked 8 (pos 30)
    ∷ claim_op 90000000 none_locked 9 (pos 30)
    ∷ []

retries-AreAllowed : AreAllowed retries lending
retries-AreAllowed = (tt, (tt, (tt, tt)))

claims_capped_example :
    (1 + claims_of 1 retries lending ≤ 2)
    × ((r' : JobRow) × (find 1 (run retries lending) ≡ some r')
        × (r'.attempt_count ≡ 1 + claims_of 1 retries lending))
claims_capped_example = claims_capped 1 retries lending lent retries-AreAllowed lending-IsValid refl

abbrev ended : JobRow
ended = record (new_row 1 10 evaluation) { status = completed; attempt_count = 1 }

ended-IsValid : IsValid (ended ∷ [])
ended-IsValid = ground arith

abbrev meddling : List Op
meddling = cancel_op 1 ∷ claim_op 90000000 none_locked 8 (pos 30) ∷ complete_op 1 8 ∷ []

terminal_stays_example : find 1 (run meddling (ended ∷ [])) ≡ some ended
terminal_stays_example =
    terminal_stays 1 meddling (ended ∷ []) ended (tt, (tt, (tt, tt))) ended-IsValid refl refl

run_refines_example :
    (r' : JobRow) × (find 1 (run retries lending) ≡ some r')
    × (r'.max_attempts ≡ lent.max_attempts)
    × Reaches lent.max_attempts (phase_of lent) (phase_of r')
run_refines_example = run_refines 1 retries lending lent retries-AreAllowed lending-IsValid refl
