-- ===== src/Queue/Trace.antt =====
-- Any sequence of transactions on the job queue (src/ragops/persistence/job_queue.py), by any
-- number of clients and workers: what holds of the table after it.
use rag_eval_platform.Prelude.{ℕ, ◌<◌, ◌≡◌, Bool, false, List, [], ◌∷◌, contains, ℤ}
use rag_eval_platform.Queue.{
  JobSpec, Table, claim, heartbeat, complete, fail, cancel, enqueue, Dialect,
}
use rag_eval_platform.Queue.Table.{ids}
use rag_eval_platform.Queue.Invariant.{IsValid}
use rag_eval_platform.Queue.Preserve.{
  claim-IsValid, heartbeat-IsValid, complete-IsValid, fail-IsValid, cancel-IsValid, enqueue-IsValid,
}

-- A transaction: the operation, its arguments, and the clock, the fresh id and the row locks that
-- it meets.
pub data Op : Type 0 where
  enqueue_op : Dialect → ℕ → ℕ → JobSpec → Op
  claim_op : ℕ → (ℕ → Bool) → ℕ → ℤ → Op
  heartbeat_op : ℕ → ℕ → ℕ → ℤ → Op
  complete_op : ℕ → ℕ → Op
  fail_op : ℕ → ℕ → ℕ → ℕ → ℤ → Op
  cancel_op : ℕ → Op

unfoldable pub perform : Op → Table → Table
perform (enqueue_op dialect i stamp spec) rows = (enqueue dialect i stamp spec rows).1
perform (claim_op now locked w l) rows = (claim now locked w l rows).1
perform (heartbeat_op now i w l) rows = (heartbeat now i w l rows).1
perform (complete_op i w) rows = (complete i w rows).1
perform (fail_op now i w e d) rows = (fail now i w e d rows).1
perform (cancel_op i) rows = (cancel i rows).1

-- A queued job has a fresh id and, by its contract, at least one attempt.
abbrev IsAllowed : Op → Table → Type 0
IsAllowed (enqueue_op dialect i stamp spec) rows =
    (0 < spec.max_attempts) × (contains i (ids rows) ≡ false)
IsAllowed _ rows = Unit

unfoldable pub run : List Op → Table → Table
run [] rows = rows
run (op ∷ ops) rows = run ops (perform op rows)

abbrev pub AreAllowed : List Op → Table → Type 0
AreAllowed [] rows = Unit
AreAllowed (op ∷ ops) rows = IsAllowed op rows × AreAllowed ops (perform op rows)

pub perform-IsValid :
    (op : Op) (rows : Table) → IsAllowed op rows → IsValid rows → IsValid (perform op rows)
unfolding perform
perform-IsValid (enqueue_op dialect i stamp spec) rows a v =
    enqueue-IsValid dialect i stamp spec rows v a.0 a.1
perform-IsValid (claim_op now locked w l) rows a v = claim-IsValid now locked w l rows v
perform-IsValid (heartbeat_op now i w l) rows a v = heartbeat-IsValid now i w l rows v
perform-IsValid (complete_op i w) rows a v = complete-IsValid i w rows v
perform-IsValid (fail_op now i w e d) rows a v = fail-IsValid now i w e d rows v
perform-IsValid (cancel_op i) rows a v = cancel-IsValid i rows v

-- From an empty table, or any valid one, every sequence of transactions in which each queued job has
-- a fresh id and at least one attempt leads to a table in which ids and keys are distinct, a job has an owner and an expiry exactly while it is leased, no job
-- has more attempts than it is allowed, and a pending job has one left.
pub run-IsValid :
    (ops : List Op) (rows : Table) → AreAllowed ops rows → IsValid rows → IsValid (run ops rows)
unfolding run
run-IsValid [] rows a v = v
run-IsValid (op ∷ ops) rows a v =
    run-IsValid ops (perform op rows) a.1 (perform-IsValid op rows a.0 v)
