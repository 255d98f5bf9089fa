-- ===== src/Worker/Released.antt =====
-- A job whose handler raises is released, never completed (`run_once` of src/ragops/worker.py).
use rag_eval_platform.Prelude.{
  ℕ, ◌+◌, ◌≤◌, ◌<◌, ◌⊎◌, ltb, sym, unknown_job_kind, ◌≡◌, refl, ap, ◌∙◌, inl, inr, true, false,
  Option, none, some, [], arith, Bool-cases, Result, ok, err, is_negative, Error,
}
use rag_eval_platform.Queue.{
  pending, failed, seconds, JobRow, Job, Table, find, update_row, claim, lease_is_invalid,
}
use rag_eval_platform.Queue.Table.{find-id}
use rag_eval_platform.Queue.Invariant.{IsValid}
use rag_eval_platform.Queue.Lease.{released, Holds, fail_held}
use rag_eval_platform.Worker.{
  Worker, raises, Round, Failure, exception, await_task, execute, settle, run_once,
}
use rag_eval_platform.Worker.Alone.{
  IsAlone, HasLease, find-written, await_alone, run_once_claimed, lease_of_claim, execute_alone,
  work_on-executed,
}

settle_failed :
    (w : Worker) (round : Round) (job : Job) (e : Error) (rows : Table) (r : JobRow)
    → is_negative w.retry_delay_seconds ≡ false
    → Holds job.id w.worker_id rows r
    → let back = released round.fail_now (w.error_text e) w.retry_delay_seconds r in
      settle w round job (err (exception e)) rows
      ≡ (ok (some back), update_row job.id (λ _. back) rows)
unfolding settle
settle_failed w round job e rows r good h = rw (
    fail_held job.id w.worker_id rows r h round.fail_now (w.error_text e) w.retry_delay_seconds
      good)

-- the exception that the round ends in: there is no handler for the job, or the handler raises it
abbrev pub RaisesIn : Worker → Round → Job → Error → Type 0
RaisesIn w round job e =
    ((w.handles job.kind ≡ false) × (e ≡ unknown_job_kind))
    ⊎ ((w.handles job.kind ≡ true) × (round.ending ≡ raises e))

-- the job goes back to the queue after the delay while it has attempts left, else it has failed
abbrev pub IsReleased : Worker → Round → Job → JobRow → Type 0
IsReleased w round job back =
    ((back.status ≡ pending)
      × (job.attempt_count < job.max_attempts)
      × (back.available_at ≡ round.fail_now + seconds w.retry_delay_seconds))
    ⊎ ((back.status ≡ failed) × (job.max_attempts ≤ job.attempt_count))

released-IsReleased :
    (w : Worker) (round : Round) (job : Job) (error : ℕ) (r : JobRow)
    → r.attempt_count ≡ job.attempt_count
    → r.max_attempts ≡ job.max_attempts
    → let back = released round.fail_now error w.retry_delay_seconds r in
      IsReleased w round job back
      × (back.id ≡ r.id)
      × (back.leased_by ≡ none)
      × (back.last_error ≡ some error)
      × (back.attempt_count ≡ job.attempt_count)
released-IsReleased w round job error r a m =
    elim (Bool-cases (ltb r.attempt_count r.max_attempts)) [
      | inl h ↦ rw h (inl (refl, ground (arith, h, a, m), refl), refl, refl, refl, a)
      | inr h ↦ rw h (inr (refl, ground (arith, h, a, m)), refl, refl, refl, a)
    ]

module _ (w : Worker) (round : Round) (rows : Table) (job : Job)
    (claimed : (claim round.now round.locked w.worker_id w.lease_seconds rows).0
      ≡ ok (some job)) where
  -- the end of the execution, for a lease that is held when it begins
  execute_raises :
      (e : Error) (rows' : Table)
      → lease_is_invalid w.worker_id w.lease_seconds ≡ false
      → HasLease w job rows' job
      → IsAlone round
      → RaisesIn w round job e
      → (r : JobRow) × ((last : Table) × (execute w round job rows' ≡ (err (exception e), last))
          × HasLease w job last r)
  unfolding execute
  execute_raises e rows' good lease alone (inl (unknown, is)) =
      (job, (rows', rw unknown (ap (λ (x : Error). (err (exception x), rows')) (sym is)), lease))
  execute_raises e rows' good lease alone (inr (handled, ends)) =
      let (r, h, end) = await_alone w job good round.beats (raises e) rows' job alone.0 lease in
      let last : Table = (await_task w job round.beats [] (raises e) rows').1 in
      (
        r,
        (
          last,
          execute_alone w round rows job claimed rows' (raises e) handled alone ends
              ∙ ap (λ (o : Result Failure Unit). (o, last)) end,
          h,
        ),
      )

-- A round that claims a job, in which nobody else commits, and whose job has no handler or a handler
-- that raises, never completes the job: after however many heartbeats the job is released with the
-- text of the exception, by a retry delay that is not negative. It goes back to the queue after
-- the delay exactly while it has attempts left, else it has failed; the record that the round returns
-- is the one in the table. The table before the round is a valid one.
pub run_once_releases :
    (w : Worker) (round : Round) (rows : Table) (job : Job) (e : Error)
    → IsValid rows
    → (claim round.now round.locked w.worker_id w.lease_seconds rows).0 ≡ ok (some job)
    → RaisesIn w round job e
    → IsAlone round
    → is_negative w.retry_delay_seconds ≡ false
    → (back : JobRow) × ((run_once w round rows).0 ≡ ok (some back))
      × (find job.id (run_once w round rows).1 ≡ some back)
      × IsReleased w round job back
      × (back.id ≡ job.id)
      × (back.leased_by ≡ none)
      × (back.last_error ≡ some (w.error_text e))
      × (back.attempt_count ≡ job.attempt_count)
run_once_releases w round rows job e v claimed raised alone delay =
    let rows' : Table = (claim round.now round.locked w.worker_id w.lease_seconds rows).1 in
    let (good, lease) = lease_of_claim w round rows job claimed v in
    let (r, (last, ran, (h, a, m))) =
      execute_raises w round rows job claimed e rows' good lease alone raised in
    let back : JobRow = released round.fail_now (w.error_text e) w.retry_delay_seconds r in
    let end : run_once w round rows ≡ (ok (some back), update_row job.id (λ _. back) last) =
      run_once_claimed w round rows job claimed
      ∙ work_on-executed w round job rows' last (err (exception e)) ran
      ∙ settle_failed w round job e last r delay h in
    let (state, same_id, free, text, count) =
      released-IsReleased w round job (w.error_text e) r a m in
    (
      back,
      ap (λ (x : Result Failure (Option Job) × Table). x.0) end,
      ap (λ (x : Result Failure (Option Job) × Table). find job.id x.1) end
          ∙ find-written job.id r back last h.0 same_id,
      state,
      same_id ∙ find-id job.id r last h.0,
      free,
      text,
      count,
    )
