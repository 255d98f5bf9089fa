-- ===== src/Queue/Machine.antt =====
-- The durable queue implements, for each job, a small abstract machine
-- (src/ragops/persistence/job_queue.py).
use rag_eval_platform.Prelude.{
  ℕ, ◌<◌, ◌≡◌, refl, sym, ap, ◌∙◌, subst, inl, inr, Bool, true, Option, none, some, List, [], ◌∷◌,
  arith, Bool-cases, Result, ok, err, Error, ℤ, is_negative, ◌==◌,
}
use rag_eval_platform.Queue.{
  leased, JobSpec, JobRow, Job, Table, find, update_row, exhaust, claimable, claim, heartbeat,
  complete, fail, cancel, enqueue, lease_is_invalid, take_lease, Dialect, new_row,
}
use rag_eval_platform.Queue.Table.{find-id, find-All, find-append, find-mark, find-update_row}
use rag_eval_platform.Queue.Invariant.{IsValid, RowIsValid}
use rag_eval_platform.Queue.Claim.{open_to}
use rag_eval_platform.Queue.Claims.{ClaimSpec, claim-ClaimSpec}
use rag_eval_platform.Queue.Lease.{
  released, HolderSpec, heartbeat_lem, complete_lem, fail_lem, renewed, finished,
}
use rag_eval_platform.Queue.Submit.{EnqueueSpec, enqueue_lem, CancelSpec, cancel_lem, dropped}
use rag_eval_platform.Queue.Trace.{
  Op, enqueue_op, claim_op, heartbeat_op, complete_op, fail_op, cancel_op, perform, run, AreAllowed,
  perform-IsValid,
}
-- The abstract job: it waits, is held by a worker, or is over; with the attempts that it has used.
use rag_eval_platform.Queue.Phases.{
  Reaches, stays, here, next, phase_of, RowMoves, grants, cancels, exhaust-RowMoves,
  released-RowMoves, finished-RowMoves,
}

module _ (i : ℕ) (r : JobRow) (rows : Table) (there : find i rows ≡ some r) (v : IsValid rows) where
  -- the job is there afterwards, and has made one move
  abbrev Moved : Table → Type 0
  Moved after = (r' : JobRow) × (find i after ≡ some r') × RowMoves r r'

  there_valid : RowIsValid r
  there_valid = find-All RowIsValid i r rows v.rows_valid there

  unmoved : (after : Table) → find i after ≡ some r → Moved after
  unmoved after e = (r, e, (refl, stays (phase_of r)))

  same_table : (after : Table) → after ≡ rows → Moved after
  same_table after e = unmoved after (rw e there)

  -- an UPDATE of one row by a row that makes a move
  found_after :
      (j : ℕ) (s s' : JobRow) (after : Table)
      → find j rows ≡ some s
      → s'.id ≡ s.id
      → RowMoves s s'
      → after ≡ update_row j (λ _. s') rows
      → Moved after
  found_after j s s' after h e m same = elim (Bool-cases (i == j)) [
    | inl k ↦
        let both : s ≡ r = ground (arith, k, h, there) in
        (
          s',
          rw (same, find-update_row j s' (e ∙ find-id j s rows h) i rows)
              (ground (arith, k, there)),
          subst (λ (x : JobRow). RowMoves x s') both m,
        )
    | inr k ↦
        unmoved after (
          rw (same, find-update_row j s' (e ∙ find-id j s rows h) i rows)
            (ground (arith, k, there)))
  ]

  claimed :
      (now : ℕ) (locked : ℕ → Bool) (w : ℕ) (l : ℤ) (out : Result Error (Option Job))
      (after : Table)
      → ClaimSpec now locked w l rows (out, after)
      → Moved after
  unfolding claimable take_lease
  claimed now locked w l (err e) after (_, _, same) = same_table after same
  claimed now locked w l (ok none) after (_, _, same) =
      (exhaust now r, rw (same, find-mark now i rows, there) refl, exhaust-RowMoves now r)
  claimed now locked w l (ok (some job)) after (s, good, f, e, at) = elim (Bool-cases (i == s.id)) [
    | inl k ↦
        let both : s ≡ r = ground (arith, k, f.found, there) in
        (
          job,
          at i ∙ rw k refl,
          subst (λ (x : JobRow). RowMoves x job) both
              (subst (λ (x : JobRow). RowMoves s x) (sym e)
                (
                  refl,
                  grants s.max_attempts w s.attempt_count s.status s.leased_by
                      (ground (arith, f.ready))
                      (open_attempts s (find-All RowIsValid s.id s rows v.rows_valid f.found)
                        f.ready),
                )),
        )
    | inr k ↦ (exhaust now r, at i ∙ rw (k, there) refl, exhaust-RowMoves now r)
  ]
    where
      open_attempts :
          (s : JobRow)
          → RowIsValid s
          → open_to now locked s ≡ true
          → s.attempt_count < s.max_attempts
      open_attempts s u h = ground (arith, u, h)

  held_op :
      (j w : ℕ) (change : JobRow → JobRow) (out : Result Error Job) (after : Table)
      → ((s : JobRow) → (change s).id ≡ s.id)
      → ((s : JobRow) → s.status ≡ leased → s.leased_by ≡ some w → RowMoves s (change s))
      → HolderSpec j w change rows (out, after)
      → Moved after
  held_op j w change (err e) after a m (same, _) = same_table after same
  held_op j w change (ok job) after a m (s, (h, st, o), e, same) =
      found_after j s (change s) after h (a s) (m s st o)
        (same ∙ ap (λ (x : JobRow). update_row j (λ _. x) rows) e)

  cancelled_op :
      (j : ℕ) (out : Result Error Job) (after : Table)
      → CancelSpec j rows (out, after)
      → Moved after
  cancelled_op j (err e) after (same, _) = same_table after same
  cancelled_op j (ok job) after (s, h, unfinished, e, same) =
      found_after j s (dropped s) after h refl
        (refl, cancels s.max_attempts s.attempt_count s.status s.leased_by unfinished)
        (same ∙ ap (λ (x : JobRow). update_row j (λ _. x) rows) e)

  enqueued :
      (dialect : Dialect) (j stamp : ℕ) (spec : JobSpec) (out : Result Error Job) (after : Table)
      → EnqueueSpec dialect j stamp spec rows (out, after)
      → Moved after
  enqueued dialect j stamp spec (err e) after (_, _, _, same) = same_table after same
  enqueued dialect j stamp spec (ok job) after (inr (k, _, _, same)) = same_table after same
  enqueued dialect j stamp spec (ok job) after (inl (_, _, same)) =
      unmoved after (rw (same, find-append i rows (new_row j stamp spec), there) refl)

  perform-moves : (op : Op) → Moved (perform op rows)
  unfolding perform
  perform-moves (enqueue_op dialect j stamp spec) =
      enqueued dialect j stamp spec (enqueue dialect j stamp spec rows).0
        (enqueue dialect j stamp spec rows).1 (enqueue_lem dialect j stamp spec rows)
  perform-moves (claim_op now locked w l) =
      claimed now locked w l (claim now locked w l rows).0 (claim now locked w l rows).1
        (claim-ClaimSpec now locked w l rows v)
  perform-moves (heartbeat_op now j w l) = elim (Bool-cases (lease_is_invalid w l)) [
    | inl bad ↦ same_table (heartbeat now j w l rows).1 (unfold heartbeat in rw bad refl)
    | inr good ↦
        held_op j w (renewed now l) (heartbeat now j w l rows).0 (heartbeat now j w l rows).1
          (λ s. refl) (λ s st o. (refl, stays (phase_of s))) (heartbeat_lem now j w l rows good)
  ]
  perform-moves (complete_op j w) =
      held_op j w finished (complete j w rows).0 (complete j w rows).1 (λ s. refl)
        (finished-RowMoves w) (complete_lem j w rows)
  perform-moves (fail_op now j w e d) = elim (Bool-cases (is_negative d)) [
    | inl bad ↦ same_table (fail now j w e d rows).1 (unfold fail in rw bad refl)
    | inr good ↦
        held_op j w (released now e d) (fail now j w e d rows).0 (fail now j w e d rows).1
          (λ s. ground arith) (λ s st o. released-RowMoves w s st o now e d)
          (fail_lem now j w e d rows good)
  ]
  perform-moves (cancel_op j) =
      cancelled_op j (cancel j rows).0 (cancel j rows).1 (cancel_lem j rows)

-- The queue refines the abstract machine of a job: over any sequence of transactions from a valid
-- table, in which each queued job has a fresh id and at least one attempt, a job that is there stays there, with the number of attempts that it is allowed, and
-- its phase goes by moves of the machine only. It is granted to a worker, or taken over from one, only
-- while attempts are left, and each time uses one; a holder ends it, gives it back while attempts
-- are left, or loses it for good when they are used up; and a phase in which it is over stays.
pub run_refines :
    (i : ℕ) (ops : List Op) (rows : Table) (r : JobRow)
    → AreAllowed ops rows
    → IsValid rows
    → find i rows ≡ some r
    → (r' : JobRow) × (find i (run ops rows) ≡ some r')
      × (r'.max_attempts ≡ r.max_attempts)
      × Reaches r.max_attempts (phase_of r) (phase_of r')
unfolding run
run_refines i [] rows r a v h = (r, h, refl, here (phase_of r))
run_refines i (op ∷ ops) rows r a v h =
    let (s, e, (cap, m)) = perform-moves i r rows h v op in
    let (t, e', cap', p) =
      run_refines i ops (perform op rows) s a.1 (perform-IsValid op rows a.0 v) e in
    (t, e', cap' ∙ cap, next m (subst (λ (c : ℕ). Reaches c (phase_of s) (phase_of t)) cap p))
