-- ===== src/Queue/Lease.antt =====
-- Leases keep two workers off one job, and a worker acts only on a lease that it holds
-- (`claim`, `heartbeat`, `complete`, `fail` and `_owned_lease` of
-- src/ragops/persistence/job_queue.py).
use rag_eval_platform.Prelude.{
  ℕ, ◌+◌, ◌≡◌, refl, sym, ap, ◌∙◌, subst, ◌↔◌, inl, inr, Bool, true, false, not, ◌||◌, Option, none,
  some, arith, opt_eq, Bool-cases, Option-cases, Result, ok, err, ℤ, is_negative, ltb,
  if◌then◌else◌, Error, value_error, key_error,
}
use rag_eval_platform.Queue.{
  pending, leased, completed, failed, JobRow, Job, Table, find, update_row, exhaust, is_leased,
  expired, claimable, claim, heartbeat, complete, fail_row, fail, take_lease, lease_is_invalid,
  seconds,
}
use rag_eval_platform.Queue.Table.{find-mark}
use rag_eval_platform.Queue.Invariant.{IsValid}
use rag_eval_platform.Queue.Claim.{IsFirst}
use rag_eval_platform.Queue.Claims.{ClaimSpec, claim-ClaimSpec}

-- leased, and the lease has not run out at `now`
abbrev IsLive : ℕ → JobRow → Type 0
IsLive now r = (r.status ≡ leased) × (expired now r.lease_expires_at ≡ false)

live_closed : (now : ℕ) (r : JobRow) → IsLive now r → claimable now r ≡ false
unfolding claimable
live_closed now r h = ground arith

live_exhaust : (now : ℕ) (r : JobRow) → IsLive now r → exhaust now r ≡ r
unfolding exhaust
live_exhaust now r h = ground arith

abbrev pub Returned : Result Error (Option Job) → ℕ → Type 0
Returned (err e) i = ⊥
Returned (ok none) i = ⊥
Returned (ok (some job)) i = job.id ≡ i

first_not_live :
    (now : ℕ) (locked : ℕ → Bool) (rows : Table) (r s : JobRow)
    → IsFirst now locked rows s
    → IsLive now r
    → find s.id rows ≡ some r
    → ⊥
first_not_live now locked rows r s f live e =
    ground (arith, live_closed now r live, f.found, f.ready)

spares :
    (now : ℕ) (locked : ℕ → Bool) (w : ℕ) (l : ℤ) (rows : Table) (i : ℕ) (r : JobRow)
    (out : Result Error (Option Job)) (after : Table)
    → IsLive now r
    → find i rows ≡ some r
    → ClaimSpec now locked w l rows (out, after)
    → (find i after ≡ some r) × ¬ Returned out i
spares now locked w l rows i r (err e) after live h (_, _, same) = (rw same h, λ x. x)
spares now locked w l rows i r (ok none) after live h (_, _, marked) =
    (rw marked (ground (arith, find-mark now i rows, live_exhaust now r live)), λ x. x)
spares now locked w l rows i r (ok (some job)) after live h (s, good, first, e, at) =
    let other : ¬ (i ≡ s.id) =
      λ p. first_not_live now locked rows r s first live (subst (λ k. find k rows ≡ some r) p h) in
    (
      ground (arith, at i, live_exhaust now r live),
      λ p. other (sym p ∙ ap (λ (j : JobRow). j.id) e ∙ unfold take_lease in refl),
    )

-- No claim, by any worker, returns or changes a job whose lease has not run out: until then
-- nobody but its holder has it.
pub claim-spares_live :
    (now : ℕ) (locked : ℕ → Bool) (worker_id : ℕ) (lease_seconds : ℤ) (rows : Table) (i : ℕ)
    (r : JobRow)
    → IsValid rows
    → find i rows ≡ some r
    → IsLive now r
    → let (out, after) = claim now locked worker_id lease_seconds rows in
      (find i after ≡ some r) × ¬ Returned out i
claim-spares_live now locked w l rows i r v h live =
    let (out, after) = claim now locked w l rows in
    spares now locked w l rows i r out after live h (claim-ClaimSpec now locked w l rows v)

-- the job is there, leased, and by this worker
abbrev pub Holds : ℕ → ℕ → Table → JobRow → Type 0
Holds job_id worker_id rows r =
    (find job_id rows ≡ some r) × (r.status ≡ leased) × (r.leased_by ≡ some worker_id)

-- An operation that only the holder of a lease may make, with the row that it writes.
abbrev pub HolderSpec : ℕ → ℕ → (JobRow → JobRow) → Table → Result Error Job × Table → Type 0
HolderSpec job_id worker_id change rows (err e, after) =
    (after ≡ rows) × ((r : JobRow) → ¬ Holds job_id worker_id rows r)
HolderSpec job_id worker_id change rows (ok job, after) =
    (r : JobRow) × Holds job_id worker_id rows r
    × (job ≡ change r)
    × (after ≡ update_row job_id (λ _. job) rows)

abbrev pub renewed : ℕ → ℤ → JobRow → JobRow
renewed now l r = record r { lease_expires_at = some (now + seconds l) }

abbrev pub finished : JobRow → JobRow
finished r = record r { status = completed; leased_by = none; lease_expires_at = none }

abbrev held : ℕ → JobRow → Bool
held worker_id r = not (not (is_leased r.status) || not (opt_eq r.leased_by (some worker_id)))

held_iff : (w : ℕ) (r : JobRow) → (held w r ≡ true) ↔ ((r.status ≡ leased) × (r.leased_by ≡ some w))
held_iff w r = ground arith

-- The shape that the three operations share.
holder_rule :
    (i w : ℕ) (change : JobRow → JobRow) (op : Table → Result Error Job × Table) (rows : Table)
    → (find i rows ≡ none → op rows ≡ (err key_error, rows))
    → ((r : JobRow) → find i rows ≡ some r → held w r ≡ false → op rows ≡ (err value_error, rows))
    → ((r : JobRow)
        → find i rows ≡ some r
        → held w r ≡ true
        → op rows ≡ (ok (change r), update_row i (λ _. change r) rows))
    → HolderSpec i w change rows (op rows)
holder_rule i w change op rows missing foreign own = elim (Option-cases (find i rows)) [
  | inl e ↦ rw (missing e) (refl, λ r h. cc)
  | inr (r, e) ↦ elim (Bool-cases (held w r)) [
    | inl h ↦ rw (own r e h) (r, (e, ((held_iff w r).0 h).0, ((held_iff w r).0 h).1), refl, refl)
    | inr h ↦ rw (foreign r e h) (refl, λ s k. ground (arith, held_iff w r))
  ]
]

-- `heartbeat` with a worker name and a positive lease extends the lease of a job that the worker
-- holds to the given time from now; for any other job it raises and changes nothing.
pub heartbeat_lem :
    (now job_id worker_id : ℕ) (lease_seconds : ℤ) (rows : Table)
    → lease_is_invalid worker_id lease_seconds ≡ false
    → HolderSpec job_id worker_id
        (renewed now lease_seconds)
        rows
        (heartbeat now job_id worker_id lease_seconds rows)
unfolding heartbeat
heartbeat_lem now i w l rows good =
    holder_rule i w (renewed now l) (heartbeat now i w l) rows (λ e. ground arith)
      (λ r e h. ground arith) (λ r e h. ground arith)

-- `complete` ends a job that the worker holds, and clears its lease; for any other job it raises
-- and changes nothing.
pub complete_lem :
    (job_id worker_id : ℕ) (rows : Table)
    → HolderSpec job_id worker_id finished rows (complete job_id worker_id rows)
unfolding complete
complete_lem i w rows =
    holder_rule i w finished (complete i w) rows (λ e. ground arith) (λ r e h. ground arith)
      (λ r e h. ground arith)

-- the job that a worker gives up: back in the queue while attempts are left, else failed
abbrev pub released : ℕ → ℕ → ℤ → JobRow → JobRow
released now error d r =
    if ltb r.attempt_count r.max_attempts
    then record r {
      status = pending;
      available_at = now + seconds d;
      leased_by = none;
      lease_expires_at = none;
      last_error = some error;
    }
    else record r {
      status = failed;
      leased_by = none;
      lease_expires_at = none;
      last_error = some error;
    }

fail_row-released :
    (now error : ℕ) (d : ℤ) (r : JobRow) → fail_row now error d r ≡ released now error d r
unfolding fail_row
fail_row-released now error d r = ground arith

-- `fail` with a delay that is not negative releases a job that the worker holds: for good when its
-- attempts are used up, else back to pending after the delay. For any other job it raises and
-- changes nothing.
pub fail_lem :
    (now job_id worker_id error : ℕ) (retry_delay_seconds : ℤ) (rows : Table)
    → is_negative retry_delay_seconds ≡ false
    → HolderSpec job_id worker_id
        (released now error retry_delay_seconds)
        rows
        (fail now job_id worker_id error retry_delay_seconds rows)
unfolding fail
fail_lem now i w error d rows good =
    holder_rule i w (released now error d) (fail now i w error d) rows (λ e. ground arith)
      (λ r e h. ground arith) (λ r e h. done r (ground arith))
  where
    done :
        (r : JobRow)
        → fail now i w error d rows
          ≡ (ok (fail_row now error d r), update_row i (λ _. fail_row now error d r) rows)
        → fail now i w error d rows
          ≡ (ok (released now error d r), update_row i (λ _. released now error d r) rows)
    done r h =
        h
        ∙ ap (λ (x : JobRow). (ok x, update_row i (λ _. x) rows)) (fail_row-released now error d r)

pub fail_negative :
    (now job_id worker_id error : ℕ) (d : ℤ) (rows : Table)
    → is_negative d ≡ true
    → fail now job_id worker_id error d rows ≡ (err value_error, rows)
unfolding fail
fail_negative now job_id worker_id error d rows h = ground arith

-- The holder's own calls go through.
module _ (job_id worker_id : ℕ) (rows : Table) (r : JobRow)
    (holds : Holds job_id worker_id rows r) where
  pub heartbeat_held :
      (now : ℕ) (l : ℤ)
      → lease_is_invalid worker_id l ≡ false
      → heartbeat now job_id worker_id l rows
        ≡ (ok (renewed now l r), update_row job_id (λ _. renewed now l r) rows)
  unfolding heartbeat
  heartbeat_held now l good = ground arith

  pub complete_held :
      complete job_id worker_id rows ≡ (ok (finished r), update_row job_id (λ _. finished r) rows)
  unfolding complete
  complete_held = ground arith

  pub fail_held :
      (now error : ℕ) (d : ℤ)
      → is_negative d ≡ false
      → fail now job_id worker_id error d rows
        ≡ (ok (released now error d r), update_row job_id (λ _. released now error d r) rows)
  unfolding fail
  fail_held now error d good = given (ground arith)
    where
      given :
          fail now job_id worker_id error d rows
            ≡ (ok (fail_row now error d r), update_row job_id (λ _. fail_row now error d r) rows)
          → fail now job_id worker_id error d rows
            ≡ (ok (released now error d r), update_row job_id (λ _. released now error d r) rows)
      given h =
          h
          ∙ ap (λ (x : JobRow). (ok x, update_row job_id (λ _. x) rows))
              (fail_row-released now error d r)
