-- ===== src/Worker/Alone.antt =====
-- What becomes of a claimed job: a worker that still holds the lease ends it, one that has lost it
-- changes nothing (`_execute` and `run_once` of src/ragops/worker.py).
use rag_eval_platform.Prelude.{
  ℕ, ◌≡◌, refl, ap, ◌∙◌, inl, inr, true, false, Option, none, some, List, [], ◌∷◌, arith,
  Bool-cases, All, Result, ok, err, pure, continue, is_negative, Error,
}
use rag_eval_platform.Queue.{
  leased, completed, JobRow, Job, Table, find, update_row, claim, heartbeat, complete, fail,
  take_lease, lease_is_invalid,
}
use rag_eval_platform.Queue.Table.{find-id, find-update_row}
use rag_eval_platform.Queue.Invariant.{IsValid}
use rag_eval_platform.Queue.Claims.{ClaimSpec, claim-ClaimSpec}
use rag_eval_platform.Queue.Lease.{
  released, Holds, HolderSpec, complete_lem, fail_lem, fail_negative, heartbeat_held, complete_held,
  renewed, finished,
}
use rag_eval_platform.Queue.Trace.{Op, run}
use rag_eval_platform.Worker.{
  Worker, settled, Beat, Ending, returns, raises, shutdown, Round, Failure, exception, cancelled,
  finish, await_task, execute, settle, work_on, run_once,
}

module _ (w : Worker) (job_id : ℕ) (rows : Table)
    (lost : (r : JobRow) → ¬ Holds job_id w.worker_id rows r) where
  holder_refused :
      (change : JobRow → JobRow) (out : Result Error Job × Table)
      → HolderSpec job_id w.worker_id change rows out
      → (continue (λ done. pure (some done)) (settled rows out)).1 ≡ rows
  holder_refused change (err e, after) h = refl
  holder_refused change (ok job, after) (r, h, _, _) = absurd (lost r h)

-- When the task of a job has ended, a worker that does not hold the job's lease any more changes
-- nothing, whether the handler returned, raised or was cancelled.
pub settle-fenced :
    (w : Worker) (round : Round) (job : Job) (outcome : Result Failure Unit) (rows : Table)
    → ((r : JobRow) → ¬ Holds job.id w.worker_id rows r)
    → (settle w round job outcome rows).1 ≡ rows
unfolding settle
settle-fenced w round job (ok _) rows lost =
    holder_refused w job.id rows lost finished (complete job.id w.worker_id rows)
      (complete_lem job.id w.worker_id rows)
settle-fenced w round job (err (exception e)) rows lost =
    elim (Bool-cases (is_negative w.retry_delay_seconds)) [
      | inl bad ↦ rw (
          fail_negative round.fail_now job.id w.worker_id (w.error_text e) w.retry_delay_seconds
            rows bad)
      | inr good ↦
          holder_refused w job.id rows lost
            (released round.fail_now (w.error_text e) w.retry_delay_seconds)
            (fail round.fail_now job.id w.worker_id (w.error_text e) w.retry_delay_seconds rows)
            (fail_lem round.fail_now job.id w.worker_id (w.error_text e) w.retry_delay_seconds rows
              good)
    ]
settle-fenced w round job (err cancelled) rows lost = refl

-- Nobody else commits during the round.
abbrev pub IsAlone : Round → Type 0
IsAlone round = All (λ b. b.others ≡ []) round.beats × (round.others ≡ [])

-- the lease of `job_id` is held, with that many attempts made of that many allowed
abbrev pub HasLease : Worker → JobRow → Table → JobRow → Type 0
HasLease w job rows r =
    Holds job.id w.worker_id rows r
    × (r.attempt_count ≡ job.attempt_count)
    × (r.max_attempts ≡ job.max_attempts)

pub find-written :
    (i : ℕ) (r r' : JobRow) (rows : Table)
    → find i rows ≡ some r
    → r'.id ≡ r.id
    → find i (update_row i (λ _. r') rows) ≡ some r'
find-written i r r' rows h e = find-update_row i r' (e ∙ find-id i r rows h) i rows ∙ ground arith

module _ (w : Worker) (job : Job)
    (good : lease_is_invalid w.worker_id w.lease_seconds ≡ false) where
  beat_alone :
      (now : ℕ) (rows : Table) (r : JobRow)
      → HasLease w job rows r
      → heartbeat now job.id w.worker_id w.lease_seconds rows ≡ (
        ok (renewed now w.lease_seconds r),
        update_row job.id (λ _. renewed now w.lease_seconds r) rows,
      )
  beat_alone now rows r h = heartbeat_held job.id w.worker_id rows r h.0 now w.lease_seconds good

  renewed_lease :
      (now : ℕ) (rows : Table) (r : JobRow)
      → HasLease w job rows r
      → HasLease w job
          (update_row job.id (λ _. renewed now w.lease_seconds r) rows)
          (renewed now w.lease_seconds r)
  renewed_lease now rows r ((f, st, by), a, m) =
      ((find-written job.id r (renewed now w.lease_seconds r) rows f refl, st, by), a, m)

  -- Heartbeats alone never lose a lease, however late they come.
  pub await_alone :
      (beats : List Beat) (ending : Ending) (rows : Table) (r : JobRow)
      → All (λ b. b.others ≡ []) beats
      → HasLease w job rows r
      → (r' : JobRow) × HasLease w job (await_task w job beats [] ending rows).1 r'
        × ((await_task w job beats [] ending rows).0 ≡ (finish ending rows).0)
  unfolding await_task run
  await_alone [] returns rows r a h = (r, h, refl)
  await_alone [] (raises e) rows r a h = (r, h, refl)
  await_alone [] shutdown rows r a h = (r, h, refl)
  await_alone (b ∷ beats) ending rows r a h =
      let rows' = update_row job.id (λ _. renewed b.now w.lease_seconds r) rows in
      let (r', h', e) =
        await_alone beats ending rows' (renewed b.now w.lease_seconds r) a.1
          (renewed_lease b.now rows r h) in
      rw (a.0, beat_alone b.now rows r h) (r', h', e ∙ go ending)
    where
      go :
          (ending : Ending)
          → (finish ending (update_row job.id (λ _. renewed b.now w.lease_seconds r) rows)).0
            ≡ (finish ending rows).0
      go returns = refl
      go (raises x) = refl
      go shutdown = refl

settled_ok :
    {A : Type 0} (before : Table) (out : Result Error A × Table) (a : A)
    → out.0 ≡ ok a
    → settled before out ≡ (ok a, out.1)
settled_ok before (ok b, after) a h = ground arith
settled_ok before (err e, after) a h = cc

module _ (w : Worker) (round : Round) (rows : Table) (job : Job)
    (claimed : (claim round.now round.locked w.worker_id w.lease_seconds rows).0
      ≡ ok (some job)) where
  pub run_once_claimed :
      run_once w round rows
      ≡ work_on w round (some job) (claim round.now round.locked w.worker_id w.lease_seconds rows).1
  unfolding run_once
  run_once_claimed = ap (continue (work_on w round)) (
      settled_ok rows (claim round.now round.locked w.worker_id w.lease_seconds rows) (some job)
        claimed)

  pub lease_of_claim :
      IsValid rows
      → (lease_is_invalid w.worker_id w.lease_seconds ≡ false)
        × HasLease w job (claim round.now round.locked w.worker_id w.lease_seconds rows).1 job
  lease_of_claim v =
      go (claim round.now round.locked w.worker_id w.lease_seconds rows) claimed
        (claim-ClaimSpec round.now round.locked w.worker_id w.lease_seconds rows v)
    where
      go :
          (out : Result Error (Option Job) × Table)
          → out.0 ≡ ok (some job)
          → ClaimSpec round.now round.locked w.worker_id w.lease_seconds rows out
          → (lease_is_invalid w.worker_id w.lease_seconds ≡ false) × HasLease w job out.1 job
      go (err e, after) h c = cc
      go (ok none, after) h c = cc
      go (ok (some j), after) h (r, good, f, e, at) =
          (good, (ground (arith, at job.id, took r), refl, refl))
        where
          took :
              (r : JobRow)
              → let t = take_lease round.now w.worker_id w.lease_seconds r in
                (t.id ≡ r.id) × (t.status ≡ leased) × (t.leased_by ≡ some w.worker_id)
          took r = unfold take_lease in (refl, refl, refl)

  pub execute_alone :
      (rows' : Table) (ending : Ending)
      → w.handles job.kind ≡ true
      → IsAlone round
      → round.ending ≡ ending
      → execute w round job rows' ≡ await_task w job round.beats [] ending rows'
  unfolding execute
  execute_alone rows' ending handled alone ends = rw handled (
      ap (λ (o : List Op). await_task w job round.beats o round.ending rows') alone.1
      ∙ ap (λ (e : Ending). await_task w job round.beats [] e rows') ends)

pub work_on-executed :
    (w : Worker) (round : Round) (job : Job) (rows rows' : Table) (outcome : Result Failure Unit)
    → execute w round job rows ≡ (outcome, rows')
    → work_on w round (some job) rows ≡ settle w round job outcome rows'
unfolding work_on
work_on-executed w round job rows rows' outcome e =
    ap (λ (x : Result Failure Unit × Table). settle w round job x.0 x.1) e

settle_done :
    (w : Worker) (round : Round) (job : Job) (rows : Table) (r : JobRow)
    → Holds job.id w.worker_id rows r
    → settle w round job (ok tt) rows
      ≡ (ok (some (finished r)), update_row job.id (λ _. finished r) rows)
unfolding settle
settle_done w round job rows r h = rw (complete_held job.id w.worker_id rows r h)

-- A round that claims a job it can handle, and in which nobody else commits, completes the job if
-- the handler returns, after however many heartbeats: the record that it returns is that of the
-- job, completed and without a lease, and it is in the table.
pub run_once_completes :
    (w : Worker) (round : Round) (rows : Table) (job : Job)
    → IsValid rows
    → (claim round.now round.locked w.worker_id w.lease_seconds rows).0 ≡ ok (some job)
    → w.handles job.kind ≡ true
    → IsAlone round
    → round.ending ≡ returns
    → (done : JobRow) × ((run_once w round rows).0 ≡ ok (some done))
      × (find job.id (run_once w round rows).1 ≡ some done)
      × (done.id ≡ job.id)
      × (done.status ≡ completed)
      × (done.leased_by ≡ none)
      × (done.attempt_count ≡ job.attempt_count)
run_once_completes w round rows job v claimed handled alone ends =
    let rows' : Table = (claim round.now round.locked w.worker_id w.lease_seconds rows).1 in
    let (good, lease) = lease_of_claim w round rows job claimed v in
    let (r, (h, a, m), e) = await_alone w job good round.beats returns rows' job alone.0 lease in
    let last : Table = (await_task w job round.beats [] returns rows').1 in
    let end : run_once w round rows
        ≡ (ok (some (finished r)), update_row job.id (λ _. finished r) last) =
      run_once_claimed w round rows job claimed
      ∙ work_on-executed w round job rows' last (ok tt) (
          execute_alone w round rows job claimed rows' returns handled alone ends
          ∙ ap (λ (o : Result Failure Unit). (o, last)) e)
      ∙ settle_done w round job last r h in
    (
      finished r,
      ap (λ (x : Result Failure (Option Job) × Table). x.0) end,
      ap (λ (x : Result Failure (Option Job) × Table). find job.id x.1) end
          ∙ find-written job.id r (finished r) last h.0 refl,
      find-id job.id r last h.0,
      refl,
      refl,
      a,
    )
