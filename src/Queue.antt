-- ===== src/Queue.antt =====
-- The durable job queue: src/ragops/persistence/job_queue.py, with the row of
-- persistence/models.py and the contracts of contracts/jobs.py. Times are microseconds, texts and
-- identifiers are names; the name 0 is the empty text.
pub mod Table
pub mod Invariant
pub mod Claim
pub mod Claims
pub mod Contract
pub mod Lease
pub mod Submit
pub mod Preserve
pub mod Trace
pub mod Attempts
pub mod Terminal
pub mod Phases
pub mod Machine
mod Tests
use rag_eval_platform.Prelude.{
  ℕ, ◌+◌, ◌*◌, Bool, true, false, not, ◌&&◌, ◌||◌, Option, none, some, List, [], ◌∷◌, ◌++◌, ltb,
  leb, ◌==◌, opt_eq, is_some, if◌then◌else◌, length, filter, ok, err, Exec, pure, gets, or_raise,
  ◌>>=◌, ◌>>◌, raise_if, modify, ℤ, pos_part, is_negative, is_positive, Error, value_error,
  key_error, runtime_error,
}

pub data JobStatus : Type 0 where
  pending leased completed failed cancelled : JobStatus

abbrev pub is_pending : JobStatus → Bool
is_pending pending = true
is_pending _ = false

abbrev pub is_leased : JobStatus → Bool
is_leased leased = true
is_leased _ = false

-- `status in {JobStatus.COMPLETED, JobStatus.FAILED}`
abbrev pub is_finished : JobStatus → Bool
is_finished completed = true
is_finished failed = true
is_finished _ = false

pub record JobSpec : Type 0 where
  pub kind : ℕ
  pub payload : ℕ
  pub max_attempts : ℕ
  pub idempotency_key : Option ℕ
  pub available_at : ℕ

pub record JobRow : Type 0 where
  pub id : ℕ
  pub kind : ℕ
  pub payload : ℕ
  pub status : JobStatus
  pub attempt_count : ℕ
  pub max_attempts : ℕ
  pub idempotency_key : Option ℕ
  pub available_at : ℕ
  pub lease_expires_at : Option ℕ
  pub leased_by : Option ℕ
  pub last_error : Option ℕ
  pub created_at : ℕ

-- The contract `Job` has the fields of the row, `updated_at` apart.
abbrev pub Job : Type 0
Job = JobRow

abbrev job_contract : JobRow → Job
job_contract row = row

abbrev pub Table : Type 0
Table = List JobRow

abbrev pub Queue : Type 0 → Type 0
Queue A = Exec Table Error A

-- `session.get(JobRow, job_id)`
abbrev pub find : ℕ → Table → Option JobRow
find i [] = none
find i (r ∷ rows) = if i == r.id then some r else find i rows

-- the flush of a changed row: an UPDATE by its primary key
abbrev pub update_row : ℕ → (JobRow → JobRow) → Table → Table
update_row i f [] = []
update_row i f (r ∷ rows) = (if i == r.id then f r else r) ∷ update_row i f rows

-- `select(JobRow).where(JobRow.idempotency_key == key)`
abbrev pub find_key : ℕ → Table → Option JobRow
find_key k [] = none
find_key k (r ∷ rows) = if opt_eq r.idempotency_key (some k) then some r else find_key k rows

-- `lease_expires_at <= now`, which is not true of NULL
abbrev pub expired : ℕ → Option ℕ → Bool
expired now none = false
expired now (some t) = leb t now

pub claimable : ℕ → JobRow → Bool
claimable now r =
    (is_pending r.status && leb r.available_at now)
    || (is_leased r.status
        && (expired now r.lease_expires_at && ltb r.attempt_count r.max_attempts))

-- the order of `order_by(JobRow.available_at, JobRow.created_at)`
pub precedes : JobRow → JobRow → Bool
precedes r s =
    ltb r.available_at s.available_at
    || (r.available_at == s.available_at && ltb r.created_at s.created_at)

pub earlier : JobRow → Option JobRow → JobRow
unfolding precedes
earlier r none = r
earlier r (some s) = if precedes s r then s else r

-- `claimable_job_statement`: the first claimable row in that order that no other transaction has
-- locked (`with_for_update(skip_locked=True)`, `limit(1)`)
pub claimable_job_statement : ℕ → (ℕ → Bool) → Table → Option JobRow
unfolding claimable earlier
claimable_job_statement now locked [] = none
claimable_job_statement now locked (r ∷ rows) =
    let best = claimable_job_statement now locked rows in
    if claimable now r && not (locked r.id) then some (earlier r best) else best

abbrev lease_error : ℕ
lease_error = 1

pub is_exhausted : ℕ → JobRow → Bool
is_exhausted now r =
    is_leased r.status && (expired now r.lease_expires_at && leb r.max_attempts r.attempt_count)

-- the values that `_mark_exhausted_leases_failed` sets
pub exhaust : ℕ → JobRow → JobRow
unfolding is_exhausted
exhaust now r =
    if is_exhausted now r
    then record r {
      status = failed;
      leased_by = none;
      lease_expires_at = none;
      last_error = some lease_error;
    }
    else r

pub mark_exhausted_leases_failed : ℕ → Table → Table
unfolding exhaust
mark_exhausted_leases_failed now [] = []
mark_exhausted_leases_failed now (r ∷ rows) = exhaust now r ∷ mark_exhausted_leases_failed now rows

-- `timedelta(seconds=n)`, which the code adds to a time only where `n` is not negative
abbrev pub seconds : ℤ → ℕ
seconds n = pos_part n * 1000000

-- `_validate_lease`
abbrev pub lease_is_invalid : ℕ → ℤ → Bool
lease_is_invalid worker_id lease_seconds = worker_id == 0 || not (is_positive lease_seconds)

unfoldable pub take_lease : ℕ → ℕ → ℤ → JobRow → JobRow
take_lease now worker_id lease_seconds r = record r {
  status = leased;
  attempt_count = r.attempt_count + 1;
  leased_by = some worker_id;
  lease_expires_at = some (now + seconds lease_seconds);
}

-- the row that is claimed, if there is one
pub claim_row : ℕ → ℕ → ℤ → Option JobRow → Queue (Option Job)
unfolding take_lease
claim_row now worker_id lease_seconds none rows = (ok none, rows)
claim_row now worker_id lease_seconds (some r) rows =
    let r' = take_lease now worker_id lease_seconds r in
    (ok (some (job_contract r')), update_row r.id (λ _. r') rows)

unfoldable pub claim : ℕ → (ℕ → Bool) → ℕ → ℤ → Queue (Option Job)
unfolding claim_row claimable_job_statement mark_exhausted_leases_failed
claim now locked worker_id lease_seconds = do
  raise_if (lease_is_invalid worker_id lease_seconds) value_error
  modify (mark_exhausted_leases_failed now)
  row ← gets (claimable_job_statement now locked)
  claim_row now worker_id lease_seconds row

-- `_owned_lease`
owned_lease : ℕ → ℕ → Queue JobRow
owned_lease job_id worker_id = do
  row ← (do found ← gets (find job_id); or_raise found key_error)
  raise_if (not (is_leased row.status) || not (opt_eq row.leased_by (some worker_id))) value_error
  pure row

-- a change of the attributes of a loaded row, its flush and refresh
abbrev save : ℕ → JobRow → Queue Job
save i r rows = (ok (job_contract r), update_row i (λ _. r) rows)

pub heartbeat : ℕ → ℕ → ℕ → ℤ → Queue Job
unfolding owned_lease
heartbeat now job_id worker_id lease_seconds = do
  raise_if (lease_is_invalid worker_id lease_seconds) value_error
  row ← owned_lease job_id worker_id
  save job_id (record row { lease_expires_at = some (now + seconds lease_seconds) })

pub complete : ℕ → ℕ → Queue Job
unfolding owned_lease
complete job_id worker_id = do
  row ← owned_lease job_id worker_id
  save job_id (record row { status = completed; leased_by = none; lease_expires_at = none })

-- the changes that `fail` makes
pub fail_row : ℕ → ℕ → ℤ → JobRow → JobRow
fail_row now error retry_delay_seconds r =
    let released = record r {
      last_error = some error;
      leased_by = none;
      lease_expires_at = none;
    } in
    if leb r.max_attempts r.attempt_count
    then record released { status = failed }
    else record released { status = pending; available_at = now + seconds retry_delay_seconds }

pub fail : ℕ → ℕ → ℕ → ℕ → ℤ → Queue Job
unfolding owned_lease fail_row
fail now job_id worker_id error retry_delay_seconds = do
  raise_if (is_negative retry_delay_seconds) value_error
  row ← owned_lease job_id worker_id
  save job_id (fail_row now error retry_delay_seconds row)

pub cancel : ℕ → Queue Job
cancel job_id = do
  row ← (do found ← gets (find job_id); or_raise found key_error)
  raise_if (is_finished row.status) value_error
  save job_id (record row { status = cancelled; leased_by = none; lease_expires_at = none })

abbrev get : ℕ → Table → Option Job
get job_id rows = find job_id rows

abbrev pending_count : Table → ℕ
pending_count rows = length (filter (λ r. is_pending r.status) rows)

pub data Dialect : Type 0 where
  postgresql sqlite other_dialect : Dialect

-- the row that an INSERT of `spec` makes; the database stamps `created_at`
abbrev pub new_row : ℕ → ℕ → JobSpec → JobRow
new_row job_id stamp spec = record {
  id = job_id;
  kind = spec.kind;
  payload = spec.payload;
  status = pending;
  attempt_count = 0;
  max_attempts = spec.max_attempts;
  idempotency_key = spec.idempotency_key;
  available_at = spec.available_at;
  lease_expires_at = none;
  leased_by = none;
  last_error = none;
  created_at = stamp;
}

-- `on_conflict_do_nothing(index_elements=["idempotency_key"])`
abbrev insert_or_ignore : ℕ → JobRow → Table → Table
insert_or_ignore key row rows = if is_some (find_key key rows) then rows else rows ++ row ∷ []

unfoldable pub enqueue_key : Dialect → ℕ → ℕ → JobSpec → Option ℕ → Queue Job
enqueue_key dialect job_id stamp spec none rows =
    (ok (job_contract (new_row job_id stamp spec)), rows ++ new_row job_id stamp spec ∷ [])
enqueue_key other_dialect job_id stamp spec (some key) rows = (err runtime_error, rows)
enqueue_key dialect job_id stamp spec (some key) rows =
    let rows' = insert_or_ignore key (new_row job_id stamp spec) rows in
    elim (find_key key rows') [
      | none ↦ (err runtime_error, rows')
      | some row ↦ (ok (job_contract row), rows')
    ]

unfoldable pub enqueue : Dialect → ℕ → ℕ → JobSpec → Queue Job
unfolding enqueue_key
enqueue dialect job_id stamp spec = enqueue_key dialect job_id stamp spec spec.idempotency_key
