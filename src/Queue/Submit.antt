-- ===== src/Queue/Submit.antt =====
-- `enqueue` and `cancel` of src/ragops/persistence/job_queue.py: what a client's calls do.
use rag_eval_platform.Prelude.{
  ℕ, ◌≡◌, refl, ◌⊎◌, inl, inr, Bool, true, false, Option, none, some, [], ◌∷◌, ◌++◌, arith, is_some,
  Bool-cases, Option-cases, ==_refl, Result, ok, err, Error, value_error, key_error, runtime_error,
}
use rag_eval_platform.Queue.{
  pending, cancelled, JobSpec, JobRow, Job, Table, find, update_row, find_key, is_finished, cancel,
  enqueue_key, enqueue, Dialect, postgresql, sqlite, other_dialect, new_row,
}
use rag_eval_platform.Queue.Table.{idempotency_keys, find_key-none, IsFree}

-- the databases that `enqueue` knows
abbrev pub is_supported : Dialect → Bool
is_supported postgresql = true
is_supported sqlite = true
is_supported other_dialect = false

-- a job as it is queued: pending, without attempts and lease
abbrev pub pending_job : ℕ → ℕ → JobSpec → JobRow
pending_job job_id stamp spec = record {
  id = job_id;
  kind = spec.kind;
  payload = spec.payload;
  status = pending;
  attempt_count = 0;
  max_attempts = spec.max_attempts;
  idempotency_key = spec.idempotency_key;
  available_at = spec.available_at;
  lease_expires_at = none;
  leased_by = none;
  last_error = none;
  created_at = stamp;
}

-- Where the job comes from: a new pending row, or the row that has the key already.
abbrev pub EnqueueSpec : Dialect → ℕ → ℕ → JobSpec → Table → Result Error Job × Table → Type 0
EnqueueSpec dialect job_id stamp spec rows (err e, after) =
    (is_some spec.idempotency_key ≡ true)
    × (is_supported dialect ≡ false)
    × (e ≡ runtime_error)
    × (after ≡ rows)
EnqueueSpec dialect job_id stamp spec rows (ok job, after) =
    ((job ≡ pending_job job_id stamp spec)
      × IsFree spec.idempotency_key (idempotency_keys rows)
      × (after ≡ rows ++ pending_job job_id stamp spec ∷ []))
    ⊎ ((k : ℕ) × (spec.idempotency_key ≡ some k) × (find_key k rows ≡ some job) × (after ≡ rows))

pub find_key-append :
    (k : ℕ) (rows : Table) (r : JobRow)
    → find_key k rows ≡ none
    → r.idempotency_key ≡ some k
    → find_key k (rows ++ r ∷ []) ≡ some r
find_key-append k [] r h e = rw (e, ==_refl k)
find_key-append k (s ∷ rows) r h e = ground (arith, find_key-append k rows r)

module _ (dialect : Dialect) (job_id stamp : ℕ) (spec : JobSpec) (k : ℕ) (rows : Table)
    (known : is_supported dialect ≡ true) where
  enqueue_key_new :
      find_key k rows ≡ none
      → spec.idempotency_key ≡ some k
      → enqueue_key dialect job_id stamp spec (some k) rows
        ≡ (ok (new_row job_id stamp spec), rows ++ new_row job_id stamp spec ∷ [])
  unfolding enqueue_key
  enqueue_key_new h e = ground (arith, find_key-append k rows (new_row job_id stamp spec))

  enqueue_key_taken :
      (r : JobRow)
      → find_key k rows ≡ some r
      → enqueue_key dialect job_id stamp spec (some k) rows ≡ (ok r, rows)
  unfolding enqueue_key
  enqueue_key_taken r h = ground arith

  enqueue_supported :
      spec.idempotency_key ≡ some k
      → EnqueueSpec dialect job_id stamp spec rows
          (enqueue_key dialect job_id stamp spec (some k) rows)
  enqueue_supported e = elim (Option-cases (find_key k rows)) [
    | inl h ↦ rw (enqueue_key_new h e) (inl (refl, rw e (find_key-none k rows h), refl))
    | inr (r, h) ↦ rw (enqueue_key_taken r h) (inr (k, e, h, refl))
  ]

enqueue_by_key :
    (dialect : Dialect) (job_id stamp : ℕ) (spec : JobSpec) (key : Option ℕ) (rows : Table)
    → spec.idempotency_key ≡ key
    → EnqueueSpec dialect job_id stamp spec rows (enqueue_key dialect job_id stamp spec key rows)
unfolding enqueue_key
enqueue_by_key dialect job_id stamp spec none rows e = inl (refl, rw e tt, refl)
enqueue_by_key other_dialect job_id stamp spec (some k) rows e = (rw e, refl, refl, refl)
enqueue_by_key postgresql job_id stamp spec (some k) rows e =
    enqueue_supported postgresql job_id stamp spec k rows refl e
enqueue_by_key sqlite job_id stamp spec (some k) rows e =
    enqueue_supported sqlite job_id stamp spec k rows refl e

-- `enqueue` appends one pending job without attempts, or, when a job has the key already, returns
-- that job and changes nothing. It raises only for a key on a database it does not know, and then
-- changes nothing.
pub enqueue_lem :
    (dialect : Dialect) (job_id stamp : ℕ) (spec : JobSpec) (rows : Table)
    → EnqueueSpec dialect job_id stamp spec rows (enqueue dialect job_id stamp spec rows)
unfolding enqueue
enqueue_lem dialect job_id stamp spec rows =
    enqueue_by_key dialect job_id stamp spec spec.idempotency_key rows refl

-- Queueing twice under one key, whatever the second request holds, makes one job: the second call
-- returns the job of the first and changes nothing.
pub enqueue_twice :
    (dialect : Dialect) (i j stamp later : ℕ) (spec again : JobSpec) (k : ℕ) (rows : Table)
    → is_supported dialect ≡ true
    → spec.idempotency_key ≡ some k
    → again.idempotency_key ≡ some k
    → let (first, rows') = enqueue dialect i stamp spec rows in
      enqueue dialect j later again rows' ≡ (first, rows')
unfolding enqueue enqueue_key
enqueue_twice dialect i j stamp later spec again k rows s e e' =
    elim (Option-cases (find_key k rows)) [
      | inl h ↦ ground (arith, find_key-append k rows (new_row i stamp spec))
      | inr (r, h) ↦ ground arith
    ]

-- What `cancel` does to the job of that name, and when it refuses.
abbrev pub CancelSpec : ℕ → Table → Result Error Job × Table → Type 0
CancelSpec job_id rows (err e, after) =
    (after ≡ rows)
    × ((find job_id rows ≡ none) × (e ≡ key_error)
        ⊎ ((r : JobRow) × (find job_id rows ≡ some r)
            × (is_finished r.status ≡ true)
            × (e ≡ value_error)))
CancelSpec job_id rows (ok job, after) =
    (r : JobRow) × (find job_id rows ≡ some r)
    × (is_finished r.status ≡ false)
    × (job ≡ record r { status = cancelled; leased_by = none; lease_expires_at = none })
    × (after ≡ update_row job_id (λ _. job) rows)

cancel_missing : (i : ℕ) (rows : Table) → find i rows ≡ none → cancel i rows ≡ (err key_error, rows)
unfolding cancel
cancel_missing i rows h = ground arith

cancel_finished :
    (i : ℕ) (r : JobRow) (rows : Table)
    → find i rows ≡ some r
    → is_finished r.status ≡ true
    → cancel i rows ≡ (err value_error, rows)
unfolding cancel
cancel_finished i r rows h e = ground arith

abbrev pub dropped : JobRow → JobRow
dropped r = record r { status = cancelled; leased_by = none; lease_expires_at = none }

cancel_open :
    (i : ℕ) (r : JobRow) (rows : Table)
    → find i rows ≡ some r
    → is_finished r.status ≡ false
    → cancel i rows ≡ (ok (dropped r), update_row i (λ _. dropped r) rows)
unfolding cancel
cancel_open i r rows h e = ground arith

-- `cancel` drops the lease of a job that is pending, leased or cancelled already; it refuses a
-- finished job and an unknown one, and then changes nothing.
pub cancel_lem : (job_id : ℕ) (rows : Table) → CancelSpec job_id rows (cancel job_id rows)
cancel_lem i rows = elim (Option-cases (find i rows)) [
  | inl h ↦ rw (cancel_missing i rows h) (refl, inl (h, refl))
  | inr (r, h) ↦ elim (Bool-cases (is_finished r.status)) [
    | inl e ↦ rw (cancel_finished i r rows h e) (refl, inr (r, h, e, refl))
    | inr e ↦ rw (cancel_open i r rows h e) (r, h, e, refl, refl)
  ]
]
