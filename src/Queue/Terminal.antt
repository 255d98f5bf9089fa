-- ===== src/Queue/Terminal.antt =====
-- A job that has completed, failed or been cancelled stays as it is
-- (src/ragops/persistence/job_queue.py).
use rag_eval_platform.Prelude.{
  ℕ, ◌≡◌, refl, ap, ◌∙◌, inl, inr, Bool, true, false, Option, none, some, List, [], ◌∷◌, arith,
  Bool-cases, Result, ok, err, ℤ, is_negative, Error,
}
use rag_eval_platform.Queue.{
  JobStatus, completed, failed, cancelled, JobSpec, JobRow, Job, Table, find, update_row, exhaust,
  claimable, claim, heartbeat, complete, fail, cancel, enqueue, lease_is_invalid, Dialect, new_row,
}
use rag_eval_platform.Queue.Table.{find-id, find-All, find-append, find-mark, find-update_row}
use rag_eval_platform.Queue.Invariant.{IsValid, RowIsValid}
use rag_eval_platform.Queue.Claims.{ClaimSpec, claim-ClaimSpec}
use rag_eval_platform.Queue.Lease.{
  released, HolderSpec, heartbeat_lem, complete_lem, fail_lem, renewed, finished,
}
use rag_eval_platform.Queue.Submit.{EnqueueSpec, enqueue_lem, CancelSpec, cancel_lem, dropped}
use rag_eval_platform.Queue.Trace.{
  Op, enqueue_op, claim_op, heartbeat_op, complete_op, fail_op, cancel_op, perform, run, AreAllowed,
  perform-IsValid,
}

abbrev is_terminal : JobStatus → Bool
is_terminal completed = true
is_terminal failed = true
is_terminal cancelled = true
is_terminal _ = false

module _ (i : ℕ) (r : JobRow) (rows : Table) (there : find i rows ≡ some r)
    (done : is_terminal r.status ≡ true) (v : IsValid rows) where
  there_valid : RowIsValid r
  there_valid = find-All RowIsValid i r rows v.rows_valid there

  kept_same : (after : Table) → after ≡ rows → find i after ≡ some r
  kept_same after e = rw e there

  kept_elsewhere :
      (j : ℕ) (s s' : JobRow) (after : Table)
      → find j rows ≡ some s
      → s'.id ≡ s.id
      → (i ≡ j → s' ≡ r)
      → after ≡ update_row j (λ _. s') rows
      → find i after ≡ some r
  kept_elsewhere j s s' after h e k same =
      rw (same, find-update_row j s' (e ∙ find-id j s rows h) i rows) (ground (arith, k))

  kept_claim :
      (now : ℕ) (locked : ℕ → Bool) (w : ℕ) (l : ℤ) (out : Result Error (Option Job))
      (after : Table)
      → ClaimSpec now locked w l rows (out, after)
      → find i after ≡ some r
  unfolding exhaust claimable
  kept_claim now locked w l (err e) after (_, _, same) = kept_same after same
  kept_claim now locked w l (ok none) after (_, _, same) =
      rw (same, find-mark now i rows, there) (ground arith)
  kept_claim now locked w l (ok (some job)) after (s, good, f, e, at) =
      ground (arith, at i, f.found, f.ready)

  kept_holder :
      (j w : ℕ) (change : JobRow → JobRow) (out : Result Error Job) (after : Table)
      → ((s : JobRow) → (change s).id ≡ s.id)
      → HolderSpec j w change rows (out, after)
      → find i after ≡ some r
  kept_holder j w change (err e) after a (same, _) = kept_same after same
  kept_holder j w change (ok job) after a (s, (h, st, _), e, same) =
      kept_elsewhere j s (change s) after h (a s) (λ p. ground arith)
        (same ∙ ap (λ (x : JobRow). update_row j (λ _. x) rows) e)

  kept_cancel :
      (j : ℕ) (out : Result Error Job) (after : Table)
      → CancelSpec j rows (out, after)
      → find i after ≡ some r
  kept_cancel j (err e) after (same, _) = kept_same after same
  kept_cancel j (ok job) after (s, h, unfinished, e, same) =
      kept_elsewhere j s (dropped s) after h refl (λ p. ground (arith, there_valid))
        (same ∙ ap (λ (x : JobRow). update_row j (λ _. x) rows) e)

  kept_enqueue :
      (dialect : Dialect) (j stamp : ℕ) (spec : JobSpec) (out : Result Error Job) (after : Table)
      → EnqueueSpec dialect j stamp spec rows (out, after)
      → find i after ≡ some r
  kept_enqueue dialect j stamp spec (err e) after (_, _, _, same) = kept_same after same
  kept_enqueue dialect j stamp spec (ok job) after (inr (k, _, _, same)) = kept_same after same
  kept_enqueue dialect j stamp spec (ok job) after (inl (_, _, same)) =
      rw (same, find-append i rows (new_row j stamp spec), there) refl

  kept : (op : Op) → find i (perform op rows) ≡ some r
  unfolding perform
  kept (enqueue_op dialect j stamp spec) =
      kept_enqueue dialect j stamp spec (enqueue dialect j stamp spec rows).0
        (enqueue dialect j stamp spec rows).1 (enqueue_lem dialect j stamp spec rows)
  kept (claim_op now locked w l) =
      kept_claim now locked w l (claim now locked w l rows).0 (claim now locked w l rows).1
        (claim-ClaimSpec now locked w l rows v)
  kept (heartbeat_op now j w l) = elim (Bool-cases (lease_is_invalid w l)) [
    | inl bad ↦ kept_same (heartbeat now j w l rows).1 (unfold heartbeat in rw bad refl)
    | inr good ↦
        kept_holder j w (renewed now l) (heartbeat now j w l rows).0 (heartbeat now j w l rows).1
          (λ s. refl) (heartbeat_lem now j w l rows good)
  ]
  kept (complete_op j w) =
      kept_holder j w finished (complete j w rows).0 (complete j w rows).1 (λ s. refl)
        (complete_lem j w rows)
  kept (fail_op now j w e d) = elim (Bool-cases (is_negative d)) [
    | inl bad ↦ kept_same (fail now j w e d rows).1 (unfold fail in rw bad refl)
    | inr good ↦
        kept_holder j w (released now e d) (fail now j w e d rows).0 (fail now j w e d rows).1
          (λ s. ground arith) (fail_lem now j w e d rows good)
  ]
  kept (cancel_op j) = kept_cancel j (cancel j rows).0 (cancel j rows).1 (cancel_lem j rows)

-- From a valid table, no sequence of transactions in which each queued job has a fresh id and at least
-- one attempt changes a job that has completed, failed or been cancelled.
pub terminal_stays :
    (i : ℕ) (ops : List Op) (rows : Table) (r : JobRow)
    → AreAllowed ops rows
    → IsValid rows
    → find i rows ≡ some r
    → is_terminal r.status ≡ true
    → find i (run ops rows) ≡ some r
unfolding run
terminal_stays i [] rows r a v h d = h
terminal_stays i (op ∷ ops) rows r a v h d =
    terminal_stays i ops (perform op rows) r a.1 (perform-IsValid op rows a.0 v)
      (kept i r rows h d v op) d
