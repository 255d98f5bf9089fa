-- ===== src/Queue/Contract.antt =====
-- The contract of `claim`, in terms of the fields of a job (src/ragops/persistence/job_queue.py).
use rag_eval_platform.Prelude.{
  ℕ, ◌+◌, ◌*◌, ◌≤◌, ◌<◌, ◌≡◌, refl, ap, ◌∙◌, ◌⊎◌, ◌==◌, ◌&&◌, ◌||◌, leb, ltb, inl, inr, Bool, true,
  false, not, Option, none, some, [], ◌∷◌, arith, if◌then◌else◌, map, Bool-cases, All, Result, ok,
  err, ℤ, pos_part, is_positive, Error, value_error,
}
use rag_eval_platform.Queue.{
  JobStatus, pending, leased, completed, failed, cancelled, JobRow, Job, Table, find, exhaust,
  is_exhausted, is_pending, is_leased, expired, mark_exhausted_leases_failed, claimable, precedes,
  claim, take_lease, lease_error,
}
use rag_eval_platform.Queue.Table.{exhaust_found}
use rag_eval_platform.Queue.Invariant.{IsValid}
use rag_eval_platform.Queue.Claim.{open_to}
use rag_eval_platform.Queue.Claims.{ClaimSpec, claim-ClaimSpec}

-- what a claim needs of a status, an availability, an expiry and the attempts made and allowed
abbrev ReadyAt : ℕ → JobStatus → ℕ → Option ℕ → ℕ → ℕ → Type 0
ReadyAt now pending available expiry n cap = available ≤ now
ReadyAt now leased available none n cap = ⊥
ReadyAt now leased available (some t) n cap = (t ≤ now) × (n < cap)
ReadyAt now completed available expiry n cap = ⊥
ReadyAt now failed available expiry n cap = ⊥
ReadyAt now cancelled available expiry n cap = ⊥

abbrev pub IsReady : ℕ → (ℕ → Bool) → JobRow → Type 0
IsReady now locked r =
    ReadyAt now r.status r.available_at r.lease_expires_at r.attempt_count r.max_attempts
    × (locked r.id ≡ false)

-- `r` comes no later than `s`: by availability, then by creation
abbrev pub ComesFirst : JobRow → JobRow → Type 0
ComesFirst r s =
    (r.available_at < s.available_at)
    ⊎ ((r.available_at ≡ s.available_at) × (r.created_at ≤ s.created_at))

-- the job with one more attempt, on lease
abbrev pub leased_to : ℕ → ℕ → ℤ → JobRow → JobRow
leased_to now worker_id lease_seconds r = record r {
  status = leased;
  attempt_count = r.attempt_count + 1;
  leased_by = some worker_id;
  lease_expires_at = some (now + pos_part lease_seconds * 1000000);
}

-- a job whose last attempt has outlived its lease is failed, any other is as it was
abbrev pub given_up : ℕ → JobRow → JobRow
given_up now r =
    if is_leased r.status && (expired now r.lease_expires_at && leb r.max_attempts r.attempt_count)
    then record r {
      status = failed;
      leased_by = none;
      lease_expires_at = none;
      last_error = some lease_error;
    }
    else r

abbrev pub given_up_found : ℕ → Option JobRow → Option JobRow
given_up_found now none = none
given_up_found now (some r) = some (given_up now r)

-- What `claim` promises of its result and of the table after it.
abbrev pub ClaimContract :
    ℕ → (ℕ → Bool) → ℕ → ℤ → Table → Result Error (Option Job) × Table → Type 0
ClaimContract now locked w l rows (err e, after) =
    ((w == 0 || not (is_positive l)) ≡ true) × (e ≡ value_error) × (after ≡ rows)
ClaimContract now locked w l rows (ok none, after) =
    ((w == 0 || not (is_positive l)) ≡ false)
    × All (λ s. ¬ IsReady now locked s) rows
    × (after ≡ map (given_up now) rows)
ClaimContract now locked w l rows (ok (some job), after) =
    (r : JobRow) × ((w == 0 || not (is_positive l)) ≡ false)
    × (find r.id rows ≡ some r)
    × IsReady now locked r
    × All (λ s. IsReady now locked s → ComesFirst r s) rows
    × (job ≡ leased_to now w l r)
    × ((j : ℕ) → find j after ≡ (if j == r.id then some job else given_up_found now (find j rows)))

exhaust-given_up : (now : ℕ) (r : JobRow) → exhaust now r ≡ given_up now r
unfolding exhaust is_exhausted
exhaust-given_up now r = refl

mark-given_up :
    (now : ℕ) (rows : Table) → mark_exhausted_leases_failed now rows ≡ map (given_up now) rows
unfolding mark_exhausted_leases_failed
mark-given_up now [] = refl
mark-given_up now (r ∷ rows) = rw (exhaust-given_up now r, mark-given_up now rows) refl

exhaust_found-given_up : (now : ℕ) (o : Option JobRow) → exhaust_found now o ≡ given_up_found now o
exhaust_found-given_up now none = refl
exhaust_found-given_up now (some r) = ap some (exhaust-given_up now r)

-- the test of `claimable` on the fields
abbrev ready_test : ℕ → JobStatus → ℕ → Option ℕ → ℕ → ℕ → Bool
ready_test now s a o n m =
    (is_pending s && leb a now) || (is_leased s && (expired now o && ltb n m))

ready_test_of :
    (now : ℕ) (s : JobStatus) (a : ℕ) (o : Option ℕ) (n m : ℕ)
    → ReadyAt now s a o n m
    → ready_test now s a o n m ≡ true
ready_test_of now pending a o n m h = ground arith
ready_test_of now leased a none n m h = absurd h
ready_test_of now leased a (some t) n m h = ground arith
ready_test_of now completed a o n m h = absurd h
ready_test_of now failed a o n m h = absurd h
ready_test_of now cancelled a o n m h = absurd h

ready_of_test :
    (now : ℕ) (s : JobStatus) (a : ℕ) (o : Option ℕ) (n m : ℕ)
    → ready_test now s a o n m ≡ true
    → ReadyAt now s a o n m
ready_of_test now pending a o n m h = ground arith
ready_of_test now leased a none n m h = cc
ready_of_test now leased a (some t) n m h = (ground arith, ground arith)
ready_of_test now completed a o n m h = cc
ready_of_test now failed a o n m h = cc
ready_of_test now cancelled a o n m h = cc

module _ (now : ℕ) (locked : ℕ → Bool) where
  open_to-of_ready : (r : JobRow) → IsReady now locked r → open_to now locked r ≡ true
  unfolding claimable
  open_to-of_ready r (h, u) =
      rw
        (
          ready_test_of now r.status r.available_at r.lease_expires_at r.attempt_count
              r.max_attempts h,
          u,
        )
        refl

  IsReady-of_open : (r : JobRow) → open_to now locked r ≡ true → IsReady now locked r
  unfolding claimable
  IsReady-of_open r h = (
    ready_of_test now r.status r.available_at r.lease_expires_at r.attempt_count r.max_attempts
        (ground (arith, h)),
    ground (arith, h),
  )

  none-IsReady :
      (rows : Table)
      → All (λ s. open_to now locked s ≡ false) rows
      → All (λ s. ¬ IsReady now locked s) rows
  none-IsReady [] a = tt
  none-IsReady (s ∷ rows) a = (λ h. cc (a.0, open_to-of_ready s h), none-IsReady rows a.1)

  comes_first : (r s : JobRow) → precedes s r ≡ false → ComesFirst r s
  unfolding precedes
  comes_first r s h = elim (Bool-cases (ltb r.available_at s.available_at)) [
    | inl k ↦ inl (ground (arith, k))
    | inr k ↦ inr (ground (arith, k, h), ground (arith, k, h))
  ]

  first-IsReady :
      (r : JobRow) (rows : Table)
      → All (λ s. open_to now locked s ≡ true → precedes s r ≡ false) rows
      → All (λ s. IsReady now locked s → ComesFirst r s) rows
  first-IsReady r [] a = tt
  first-IsReady r (s ∷ rows) a =
      (λ h. comes_first r s (a.0 (open_to-of_ready s h)), first-IsReady r rows a.1)

  contract_of :
      (w : ℕ) (l : ℤ) (rows : Table) (out : Result Error (Option Job) × Table)
      → ClaimSpec now locked w l rows out
      → ClaimContract now locked w l rows out
  unfolding take_lease
  contract_of w l rows (err e, after) h = h
  contract_of w l rows (ok none, after) (v, a, same) =
      (v, none-IsReady rows a, same ∙ mark-given_up now rows)
  contract_of w l rows (ok (some job), after) (r, v, f, e, at) = (
    r,
    v,
    f.found,
    IsReady-of_open r f.ready,
    first-IsReady r rows f.first,
    e,
    λ j.
        at j
        ∙ ap (λ (o : Option JobRow). if j == r.id then some job else o)
            (exhaust_found-given_up now (find j rows)),
  )

-- `claim`, on every branch: it refuses an empty worker name and a lease that is not positive and
-- then changes nothing; it returns nothing exactly when no unlocked job is ready, that is pending and
-- available, or leased with the lease run out and attempts left; else it returns the first ready job
-- in the order of availability and creation, leased to the worker until the given time from now, with
-- one more attempt. Every other job is left alone, but for those whose lease has run out with no
-- attempt left, which fail. The table is a valid one.
pub claim_lem :
    (now : ℕ) (locked : ℕ → Bool) (worker_id : ℕ) (lease_seconds : ℤ) (rows : Table)
    → IsValid rows
    → ClaimContract now locked worker_id lease_seconds rows
        (claim now locked worker_id lease_seconds rows)
claim_lem now locked w l rows v =
    contract_of now locked w l rows (claim now locked w l rows)
      (claim-ClaimSpec now locked w l rows v)
