-- ===== src/Queue/Preserve.antt =====
-- Every operation of src/ragops/persistence/job_queue.py keeps the invariant of the table.
use rag_eval_platform.Prelude.{
  ℕ, ◌<◌, ◌≡◌, refl, ap, ◌∙◌, inl, inr, Bool, true, false, Option, none, some, List, [], ◌∷◌, ◌++◌,
  arith, Bool-cases, All, contains, Result, ok, err, ℤ, is_negative, Error,
}
use rag_eval_platform.Queue.{
  leased, JobSpec, JobRow, Job, Table, find, update_row, mark_exhausted_leases_failed, claimable,
  claimable_job_statement, claim_row, claim, heartbeat, complete, fail, cancel, enqueue, take_lease,
  lease_is_invalid, Dialect, new_row,
}
use rag_eval_platform.Queue.Table.{
  ids, idempotency_keys, find-id, find-All, IsFree, ids-append, idempotency_keys-append,
  Distinct-append_new, KeysDistinct, KeysDistinct-append, KeysDistinct-append_none,
}
use rag_eval_platform.Queue.Invariant.{IsValid, RowIsValid, update_row-IsValid, mark-IsValid}
use rag_eval_platform.Queue.Claim.{open_to, Selects, claimable_job_statement-Selects}
use rag_eval_platform.Queue.Lease.{
  released, HolderSpec, heartbeat_lem, complete_lem, fail_lem, renewed, finished,
}
use rag_eval_platform.Queue.Submit.{EnqueueSpec, enqueue_lem, CancelSpec, cancel_lem, dropped}

row_valid : (i : ℕ) (r : JobRow) (rows : Table) → IsValid rows → find i rows ≡ some r → RowIsValid r
row_valid i r rows v h = find-All RowIsValid i r rows v.rows_valid h

-- A change of one row that keeps its id, its key and its validity.
write-IsValid :
    (i : ℕ) (r r' : JobRow) (rows after : Table)
    → IsValid rows
    → find i rows ≡ some r
    → RowIsValid r'
    → r'.id ≡ r.id
    → r'.idempotency_key ≡ r.idempotency_key
    → after ≡ update_row i (λ _. r') rows
    → IsValid after
write-IsValid i r r' rows after v h v' e k same =
    rw same (update_row-IsValid i r r' rows v h v' (e ∙ find-id i r rows h) k)

take-RowIsValid :
    (now : ℕ) (locked : ℕ → Bool) (w : ℕ) (l : ℤ) (r : JobRow)
    → RowIsValid r
    → open_to now locked r ≡ true
    → RowIsValid (take_lease now w l r)
unfolding take_lease claimable
take-RowIsValid now locked w l r v h = ground arith

claim_row-IsValid :
    (now : ℕ) (locked : ℕ → Bool) (w : ℕ) (l : ℤ) (rows : Table) (best : Option JobRow)
    → IsValid rows
    → Selects now locked rows best
    → IsValid (claim_row now w l best rows).1
unfolding claim_row
claim_row-IsValid now locked w l rows none v s = v
claim_row-IsValid now locked w l rows (some r) v s =
    write-IsValid r.id r (take_lease now w l r) rows _ v s.found
      (take-RowIsValid now locked w l r (row_valid r.id r rows v s.found) s.ready)
      (unfold take_lease in refl) (unfold take_lease in refl) refl

pub claim-IsValid :
    (now : ℕ) (locked : ℕ → Bool) (w : ℕ) (l : ℤ) (rows : Table)
    → IsValid rows
    → IsValid (claim now locked w l rows).1
unfolding claim
claim-IsValid now locked w l rows v =
    let marked = mark_exhausted_leases_failed now rows in
    let v' : IsValid marked = mark-IsValid now rows v in
    elim (Bool-cases (lease_is_invalid w l)) [
      | inl bad ↦ rw bad v
      | inr good ↦ rw good (
          claim_row-IsValid now locked w l marked (claimable_job_statement now locked marked) v'
            (claimable_job_statement-Selects now locked marked v'.ids_distinct))
    ]

holder-IsValid :
    (i w : ℕ) (change : JobRow → JobRow) (rows : Table) (out : Result Error Job) (after : Table)
    → IsValid rows
    → ((r : JobRow) → RowIsValid r → r.status ≡ leased → RowIsValid (change r))
    → ((r : JobRow) → (change r).id ≡ r.id)
    → ((r : JobRow) → (change r).idempotency_key ≡ r.idempotency_key)
    → HolderSpec i w change rows (out, after)
    → IsValid after
holder-IsValid i w change rows (err e) after v c a b (same, _) = rw same v
holder-IsValid i w change rows (ok job) after v c a b (r, (h, st, _), e, same) =
    write-IsValid i r (change r) rows after v h (c r (row_valid i r rows v h) st) (a r) (b r)
      (same ∙ ap (λ (j : JobRow). update_row i (λ _. j) rows) e)

pub heartbeat-IsValid :
    (now i w : ℕ) (l : ℤ) (rows : Table) → IsValid rows → IsValid (heartbeat now i w l rows).1
heartbeat-IsValid now i w l rows v = elim (Bool-cases (lease_is_invalid w l)) [
  | inl bad ↦ unfold heartbeat in rw bad v
  | inr good ↦
      holder-IsValid i w (renewed now l) rows (heartbeat now i w l rows).0
        (heartbeat now i w l rows).1 v (λ r u st. ground arith) (λ r. refl) (λ r. refl)
        (heartbeat_lem now i w l rows good)
]

pub complete-IsValid : (i w : ℕ) (rows : Table) → IsValid rows → IsValid (complete i w rows).1
complete-IsValid i w rows v =
    holder-IsValid i w finished rows (complete i w rows).0 (complete i w rows).1 v
      (λ r u st. ground arith) (λ r. refl) (λ r. refl) (complete_lem i w rows)

released-RowIsValid :
    (now e : ℕ) (d : ℤ) (r : JobRow)
    → RowIsValid r
    → r.status ≡ leased
    → RowIsValid (released now e d r)
released-RowIsValid now e d r v st = ground arith

released_same :
    (now e : ℕ) (d : ℤ) (r : JobRow)
    → ((released now e d r).id ≡ r.id) × ((released now e d r).idempotency_key ≡ r.idempotency_key)
released_same now e d r = ground arith

pub fail-IsValid :
    (now i w e : ℕ) (d : ℤ) (rows : Table) → IsValid rows → IsValid (fail now i w e d rows).1
fail-IsValid now i w e d rows v = elim (Bool-cases (is_negative d)) [
  | inl bad ↦ unfold fail in rw bad v
  | inr good ↦
      holder-IsValid i w (released now e d) rows (fail now i w e d rows).0 (fail now i w e d rows).1
        v (released-RowIsValid now e d) (λ r. (released_same now e d r).0)
        (λ r. (released_same now e d r).1) (fail_lem now i w e d rows good)
]

cancelled-IsValid :
    (i : ℕ) (rows : Table) (out : Result Error Job) (after : Table)
    → IsValid rows
    → CancelSpec i rows (out, after)
    → IsValid after
cancelled-IsValid i rows (err e) after v (same, _) = rw same v
cancelled-IsValid i rows (ok job) after v (r, h, _, e, same) =
    let u : RowIsValid r = row_valid i r rows v h in
    write-IsValid i r (dropped r) rows after v h (ground arith) refl refl
      (same ∙ ap (λ (j : JobRow). update_row i (λ _. j) rows) e)

pub cancel-IsValid : (i : ℕ) (rows : Table) → IsValid rows → IsValid (cancel i rows).1
cancel-IsValid i rows v =
    cancelled-IsValid i rows (cancel i rows).0 (cancel i rows).1 v (cancel_lem i rows)

append-keys :
    (key : Option ℕ) (taken : List (Option ℕ))
    → IsFree key taken
    → KeysDistinct taken
    → KeysDistinct (taken ++ key ∷ [])
append-keys none taken f d = KeysDistinct-append_none taken d
append-keys (some k) taken f d = KeysDistinct-append k taken f d

append-All :
    (rows : Table) (r : JobRow)
    → All RowIsValid rows
    → RowIsValid r
    → All RowIsValid (rows ++ r ∷ [])
append-All [] r a v = (v, tt)
append-All (s ∷ rows) r a v = (a.0, append-All rows r a.1 v)

enqueued-IsValid :
    (dialect : Dialect) (job_id stamp : ℕ) (spec : JobSpec) (rows : Table) (out : Result Error Job)
    (after : Table)
    → IsValid rows
    → 0 < spec.max_attempts
    → contains job_id (ids rows) ≡ false
    → EnqueueSpec dialect job_id stamp spec rows (out, after)
    → IsValid after
enqueued-IsValid dialect i stamp spec rows (err e) after v m n (_, _, _, same) = rw same v
enqueued-IsValid dialect i stamp spec rows (ok job) after v m n (inr (k, _, _, same)) = rw same v
enqueued-IsValid dialect i stamp spec rows (ok job) after v m n (inl (_, f, same)) =
    let r : JobRow = new_row i stamp spec in
    rw same (record {
      rows_valid = append-All rows r v.rows_valid (ground arith);
      ids_distinct = rw (ids-append rows r) (Distinct-append_new i (ids rows) n v.ids_distinct);
      keys_distinct =
          rw (idempotency_keys-append rows r)
            (append-keys spec.idempotency_key (idempotency_keys rows) f v.keys_distinct);
    })

pub enqueue-IsValid :
    (dialect : Dialect) (job_id stamp : ℕ) (spec : JobSpec) (rows : Table)
    → IsValid rows
    → 0 < spec.max_attempts
    → contains job_id (ids rows) ≡ false
    → IsValid (enqueue dialect job_id stamp spec rows).1
enqueue-IsValid dialect i stamp spec rows v m n =
    enqueued-IsValid dialect i stamp spec rows (enqueue dialect i stamp spec rows).0
      (enqueue dialect i stamp spec rows).1 v m n (enqueue_lem dialect i stamp spec rows)
