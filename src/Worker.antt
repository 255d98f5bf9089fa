-- ===== src/Worker.antt =====
-- The worker that claims jobs and runs them under a renewed lease: src/ragops/worker.py. Each call
-- of the queue is one transaction; what other clients and workers commit between two calls, the
-- clock, and how the handler ends come with the round.
pub mod Steps
pub mod Alone
pub mod Released
mod Tests
use rag_eval_platform.Prelude.{
  ℕ, Bool, Option, none, some, List, [], ◌∷◌, if◌then◌else◌, Result, ok, err, Exec, pure, raise,
  ◌>>=◌, ◌>>◌, ℤ, Error, unknown_job_kind,
}
use rag_eval_platform.Queue.{Job, Table, claim, heartbeat, complete, fail}
use rag_eval_platform.Queue.Trace.{Op, run}

-- the arguments of `JobWorker.__init__` that `run_once` reads
pub record Worker : Type 0 where
  pub worker_id : ℕ
  pub lease_seconds : ℤ
  pub retry_delay_seconds : ℤ
  pub handles : ℕ → Bool
  -- `f"{type(error).__name__}: {error}"`
  pub error_text : Error → ℕ

-- One timeout of `asyncio.wait`: what others committed meanwhile, and the time of the heartbeat.
pub record Beat : Type 0 where
  pub others : List Op
  pub now : ℕ

-- How the task ends: it returns, it raises an `Exception`, or the worker is cancelled, which is no
-- `Exception` and is not caught by `run_once`.
pub data Ending : Type 0 where
  returns : Ending
  raises : Error → Ending
  shutdown : Ending

pub record Round : Type 0 where
  pub now : ℕ
  pub locked : ℕ → Bool
  pub beats : List Beat
  pub ending : Ending
  pub others : List Op  -- committed between the last heartbeat and the end of the task
  pub fail_now : ℕ

-- What `_execute` raises.
pub data Failure : Type 0 where
  exception : Error → Failure
  cancelled : Failure

abbrev Work : Type 0 → Type 0
Work A = Exec Table Failure A

abbrev pub settled : {A : Type 0} → Table → Result Error A × Table → Result Failure A × Table
settled before (ok a, after) = (ok a, after)
settled before (err e, after) = (err (exception e), before)

-- a call of the queue in its own transaction, `async with self._sessions.begin()`
abbrev pub call : {A : Type 0} → Exec Table Error A → Work A
call m rows = settled rows (m rows)

abbrev pub finish : Ending → Work Unit
finish returns rows = (ok tt, rows)
finish (raises e) rows = (err (exception e), rows)
finish shutdown rows = (err cancelled, rows)

-- the `while True` of `_execute`: a heartbeat at each timeout until the task is done
pub await_task : Worker → Job → List Beat → List Op → Ending → Work Unit
await_task w job [] others ending rows = finish ending (run others rows)
await_task w job (b ∷ beats) others ending rows =
    let rest = await_task w job beats others ending in
    (call (heartbeat b.now job.id w.worker_id w.lease_seconds) >> rest) (run b.others rows)

pub execute : Worker → Round → Job → Work Unit
unfolding await_task
execute w round job =
    if w.handles job.kind
    then await_task w job round.beats round.others round.ending
    else raise (exception unknown_job_kind)

-- what `run_once` does with the outcome of `_execute`
pub settle : Worker → Round → Job → Result Failure Unit → Work (Option Job)
settle w round job (ok _) = do done ← call (complete job.id w.worker_id); pure (some done)
settle w round job (err (exception e)) = do
  released ← call (fail round.fail_now job.id w.worker_id (w.error_text e) w.retry_delay_seconds)
  pure (some released)
settle w round job (err cancelled) = raise cancelled

pub work_on : Worker → Round → Option Job → Work (Option Job)
unfolding execute settle
work_on w round none rows = (ok none, rows)
work_on w round (some job) rows =
    let (outcome, rows') = execute w round job rows in settle w round job outcome rows'

pub run_once : Worker → Round → Work (Option Job)
unfolding work_on
run_once w round = do
  job ← call (claim round.now round.locked w.worker_id w.lease_seconds)
  work_on w round job

-- `run_forever`, over the rounds that begin before `stop` is set, each with what others commit before
-- it, such as while the worker sleeps; an exception ends it
pub run_forever : Worker → List (List Op × Round) → Work Unit
unfolding run_once
run_forever w [] rows = (ok tt, rows)
run_forever w ((others, round) ∷ rounds) rows =
    let rest = run_forever w rounds in (run_once w round >> rest) (run others rows)
