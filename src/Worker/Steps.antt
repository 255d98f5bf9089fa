-- ===== src/Worker/Steps.antt =====
-- Each round of the worker keeps the job table valid, and a worker that has lost its lease changes
-- nothing (`run_once` and `run_forever` of src/ragops/worker.py).
use rag_eval_platform.Prelude.{
  ◌≡◌, refl, Bool, true, false, Option, none, some, List, [], ◌∷◌, All, Result, ok, err, pure,
  continue_keeps, Error,
}
use rag_eval_platform.Queue.{Job, Table, claim, heartbeat, complete, fail}
use rag_eval_platform.Queue.Invariant.{IsValid}
use rag_eval_platform.Queue.Preserve.{
  claim-IsValid, heartbeat-IsValid, complete-IsValid, fail-IsValid,
}
use rag_eval_platform.Queue.Trace.{Op, run}
use rag_eval_platform.Worker.{
  Worker, settled, Beat, Ending, returns, raises, shutdown, Round, Failure, exception, cancelled,
  await_task, execute, settle, work_on, run_once, run_forever,
}

-- What the others commit during a round leaves a valid table valid.
abbrev pub IsHarmless : List Op → Type 0
IsHarmless ops = (rows : Table) → IsValid rows → IsValid (run ops rows)

abbrev pub IsPolite : Round → Type 0
IsPolite round = All (λ b. IsHarmless b.others) round.beats × IsHarmless round.others

settled_keeps :
    {A : Type 0} (before : Table) (out : Result Error A × Table)
    → IsValid before
    → IsValid out.1
    → IsValid (settled before out).1
settled_keeps before (ok a, after) b h = h
settled_keeps before (err e, after) b h = b

await_keeps :
    (w : Worker) (job : Job) (beats : List Beat) (others : List Op) (ending : Ending) (rows : Table)
    → All (λ b. IsHarmless b.others) beats
    → IsHarmless others
    → IsValid rows
    → IsValid (await_task w job beats others ending rows).1
unfolding await_task
await_keeps w job [] others returns rows a k v = k rows v
await_keeps w job [] others (raises e) rows a k v = k rows v
await_keeps w job [] others shutdown rows a k v = k rows v
await_keeps w job (b ∷ beats) others ending rows a k v =
    let before : Table = run b.others rows in
    let u : IsValid before = a.0 rows v in
    let out : Result Error Job × Table =
      heartbeat b.now job.id w.worker_id w.lease_seconds before in
    let u' : IsValid (settled before out).1 =
      settled_keeps before out u
        (heartbeat-IsValid b.now job.id w.worker_id w.lease_seconds before u) in
    continue_keeps IsValid (λ _. await_task w job beats others ending) (settled before out) u'
      (λ x e. await_keeps w job beats others ending (settled before out).1 a.1 k u')

execute_keeps :
    (w : Worker) (round : Round) (job : Job) (rows : Table) (handled : Bool)
    → w.handles job.kind ≡ handled
    → IsPolite round
    → IsValid rows
    → IsValid (execute w round job rows).1
unfolding execute
execute_keeps w round job rows true h p v =
    rw h (await_keeps w job round.beats round.others round.ending rows p.0 p.1 v)
execute_keeps w round job rows false h p v = rw h v

settle_keeps :
    (w : Worker) (round : Round) (job : Job) (outcome : Result Failure Unit) (rows : Table)
    → IsValid rows
    → IsValid (settle w round job outcome rows).1
unfolding settle
settle_keeps w round job (ok _) rows v =
    let out : Result Error Job × Table = complete job.id w.worker_id rows in
    let u : IsValid (settled rows out).1 =
      settled_keeps rows out v (complete-IsValid job.id w.worker_id rows v) in
    continue_keeps IsValid (λ done. pure (some done)) (settled rows out) u (λ a e. u)
settle_keeps w round job (err (exception e)) rows v =
    let out : Result Error Job × Table =
      fail round.fail_now job.id w.worker_id (w.error_text e) w.retry_delay_seconds rows in
    let u : IsValid (settled rows out).1 = settled_keeps rows out v (
      fail-IsValid round.fail_now job.id w.worker_id (w.error_text e) w.retry_delay_seconds rows
        v) in
    continue_keeps IsValid (λ released. pure (some released)) (settled rows out) u (λ a x. u)
settle_keeps w round job (err cancelled) rows v = v

work_on_keeps :
    (w : Worker) (round : Round) (job : Option Job) (rows : Table)
    → IsPolite round
    → IsValid rows
    → IsValid (work_on w round job rows).1
unfolding work_on
work_on_keeps w round none rows p v = v
work_on_keeps w round (some job) rows p v =
    settle_keeps w round job (execute w round job rows).0 (execute w round job rows).1
      (execute_keeps w round job rows (w.handles job.kind) refl p v)

run_once-IsValid :
    (w : Worker) (round : Round) (rows : Table)
    → IsPolite round
    → IsValid rows
    → IsValid (run_once w round rows).1
unfolding run_once
run_once-IsValid w round rows p v =
    let out : Result Error (Option Job) × Table =
      claim round.now round.locked w.worker_id w.lease_seconds rows in
    let u : IsValid (settled rows out).1 =
      settled_keeps rows out v
        (claim-IsValid round.now round.locked w.worker_id w.lease_seconds rows v) in
    continue_keeps IsValid (work_on w round) (settled rows out) u
      (λ job e. work_on_keeps w round job (settled rows out).1 p u)

-- However long a worker runs, whatever its handlers do and whenever it is shut down, it leaves the
-- job table valid if what others commit does.
run_forever-IsValid :
    (w : Worker) (rounds : List (List Op × Round)) (rows : Table)
    → All (λ x. IsHarmless x.0 × IsPolite x.1) rounds
    → IsValid rows
    → IsValid (run_forever w rounds rows).1
unfolding run_forever
run_forever-IsValid w [] rows p v = v
run_forever-IsValid w ((others, round) ∷ rounds) rows p v =
    let before : Table = run others rows in
    let u : IsValid (run_once w round before).1 =
      run_once-IsValid w round before p.0.1 (p.0.0 rows v) in
    continue_keeps IsValid (λ _. run_forever w rounds) (run_once w round before) u
      (λ job e. run_forever-IsValid w rounds (run_once w round before).1 p.1 u)
