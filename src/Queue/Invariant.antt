-- ===== src/Queue/Invariant.antt =====
-- What holds of the job table between two transactions of
-- src/ragops/persistence/job_queue.py, and that every operation keeps it.
use rag_eval_platform.Prelude.{
  ℕ, ◌≤◌, ◌<◌, ◌≡◌, ◌≢◌, true, none, some, [], ◌∷◌, arith, is_some, All, Distinct,
}
use rag_eval_platform.Queue.{
  pending, leased, JobRow, Table, find, update_row, exhaust, mark_exhausted_leases_failed,
}
use rag_eval_platform.Queue.Table.{
  ids, idempotency_keys, KeysDistinct, update_row-All, ids-update_row, keys-update_row, ids-mark,
  keys-mark,
}

-- A job is leased exactly while it names a worker and an expiry; attempts stay within the limit,
-- and a pending job has one left.
pub record RowIsValid (r : JobRow) : Type 0 where
  pub attempts_allowed : 0 < r.max_attempts
  pub attempts_capped : r.attempt_count ≤ r.max_attempts
  pub pending_open : r.status ≡ pending → r.attempt_count < r.max_attempts
  pub leased_counted : r.status ≡ leased → 0 < r.attempt_count
  pub leased_owned : r.status ≡ leased → is_some r.leased_by ≡ true
  pub leased_timed : r.status ≡ leased → is_some r.lease_expires_at ≡ true
  pub released_unowned : r.status ≢ leased → r.leased_by ≡ none
  pub released_untimed : r.status ≢ leased → r.lease_expires_at ≡ none

pub record IsValid (rows : Table) : Type 0 where
  pub rows_valid : All RowIsValid rows
  pub ids_distinct : Distinct (ids rows)
  pub keys_distinct : KeysDistinct (idempotency_keys rows)

-- An UPDATE of one row by a valid one that keeps its id and key.
pub update_row-IsValid :
    (i : ℕ) (r r' : JobRow) (rows : Table)
    → IsValid rows
    → find i rows ≡ some r
    → RowIsValid r'
    → r'.id ≡ i
    → r'.idempotency_key ≡ r.idempotency_key
    → IsValid (update_row i (λ _. r') rows)
update_row-IsValid i r r' rows v found v' e k = record {
  rows_valid = update_row-All i r' RowIsValid rows v' v.rows_valid;
  ids_distinct = rw (ids-update_row i r' e rows) v.ids_distinct;
  keys_distinct = rw (keys-update_row i r' r rows v.ids_distinct found k) v.keys_distinct;
}

exhaust-RowIsValid : (now : ℕ) (r : JobRow) → RowIsValid r → RowIsValid (exhaust now r)
unfolding exhaust
exhaust-RowIsValid now r v = ground arith

mark-All :
    (now : ℕ) (rows : Table)
    → All RowIsValid rows
    → All RowIsValid (mark_exhausted_leases_failed now rows)
unfolding mark_exhausted_leases_failed
mark-All now [] a = tt
mark-All now (r ∷ rows) a = (exhaust-RowIsValid now r a.0, mark-All now rows a.1)

pub mark-IsValid :
    (now : ℕ) (rows : Table) → IsValid rows → IsValid (mark_exhausted_leases_failed now rows)
mark-IsValid now rows v = record {
  rows_valid = mark-All now rows v.rows_valid;
  ids_distinct = rw (ids-mark now rows) v.ids_distinct;
  keys_distinct = rw (keys-mark now rows) v.keys_distinct;
}
