-- ===== src/Queue/Attempts.antt =====
-- How often a job is handed to a worker: `attempt_count` counts the claims, and `max_attempts`
-- bounds them (src/ragops/persistence/job_queue.py).
use rag_eval_platform.Prelude.{
  ℕ, ◌+◌, ◌≤◌, ◌≡◌, refl, ap, ◌∙◌, inl, inr, Bool, Option, none, some, List, [], ◌∷◌, arith, ◌==◌,
  if◌then◌else◌, Bool-cases, Result, ok, err, ℤ, is_negative, Error,
}
use rag_eval_platform.Queue.{
  JobSpec, JobRow, Job, Table, find, update_row, exhaust, claim, heartbeat, complete, fail, cancel,
  enqueue, take_lease, lease_is_invalid, Dialect, new_row,
}
use rag_eval_platform.Queue.Table.{
  find-id, find-All, find-append, find-mark, find-update_row, exhaust_found,
}
use rag_eval_platform.Queue.Invariant.{IsValid, RowIsValid}
use rag_eval_platform.Queue.Claims.{ClaimSpec, claim-ClaimSpec}
use rag_eval_platform.Queue.Lease.{
  released, HolderSpec, heartbeat_lem, complete_lem, fail_lem, renewed, finished,
}
use rag_eval_platform.Queue.Submit.{EnqueueSpec, enqueue_lem, CancelSpec, cancel_lem, dropped}
use rag_eval_platform.Queue.Trace.{
  Op, enqueue_op, claim_op, heartbeat_op, complete_op, fail_op, cancel_op, perform, run, AreAllowed,
  run-IsValid, perform-IsValid,
}

abbrev same_job : ℕ → Result Error (Option Job) → ℕ
same_job i (err e) = 0
same_job i (ok none) = 0
same_job i (ok (some job)) = if i == job.id then 1 else 0

-- 1 where the transaction hands job `i` to a worker
abbrev hands_out : ℕ → Op → Table → ℕ
hands_out i (claim_op now locked w l) rows = same_job i (claim now locked w l rows).0
hands_out i _ rows = 0

-- how often a sequence hands job `i` to a worker
pub claims_of : ℕ → List Op → Table → ℕ
claims_of i [] rows = 0
claims_of i (op ∷ ops) rows = hands_out i op rows + claims_of i ops (perform op rows)

-- What one transaction may do to a row that is there already.
abbrev AttemptsGrow : JobRow → ℕ → Option JobRow → Type 0
AttemptsGrow r n found =
    (r' : JobRow) × (found ≡ some r')
    × (r'.max_attempts ≡ r.max_attempts)
    × (r'.attempt_count ≡ r.attempt_count + n)

module _ (i : ℕ) (r : JobRow) (rows : Table) (there : find i rows ≡ some r) where
  untouched : (after : Table) → after ≡ rows → AttemptsGrow r 0 (find i after)
  untouched after e = (r, rw e there, refl, omega arith)

  written :
      (j : ℕ) (s s' : JobRow) (after : Table)
      → find j rows ≡ some s
      → s'.id ≡ s.id
      → s'.max_attempts ≡ s.max_attempts
      → s'.attempt_count ≡ s.attempt_count
      → after ≡ update_row j (λ _. s') rows
      → AttemptsGrow r 0 (find i after)
  written j s s' after h e m a same = elim (Bool-cases (i == j)) [
    | inl eq ↦ (
      s',
      rw same (ground (arith, find-update_row j s' (e ∙ find-id j s rows h) i rows)),
      ground arith,
      ground arith,
    )
    | inr ne ↦ (
      r,
      rw same (ground (arith, find-update_row j s' (e ∙ find-id j s rows h) i rows)),
      refl,
      omega arith,
    )
  ]

  counted_exhaust : (now : ℕ) → AttemptsGrow r 0 (exhaust_found now (find i rows))
  unfolding exhaust
  counted_exhaust now = (exhaust now r, rw there, ground arith, ground arith)

  counted_claim :
      (now : ℕ) (locked : ℕ → Bool) (w : ℕ) (l : ℤ) (out : Result Error (Option Job))
      (after : Table)
      → ClaimSpec now locked w l rows (out, after)
      → AttemptsGrow r (same_job i out) (find i after)
  counted_claim now locked w l (err e) after (_, _, same) = untouched after same
  counted_claim now locked w l (ok none) after (_, _, same) =
      rw (same, find-mark now i rows) (counted_exhaust now)
  counted_claim now locked w l (ok (some job)) after (s, good, f, e, at) =
      elim (Bool-cases (i == s.id)) [
        | inl eq ↦ (
          job,
          at i ∙ rw eq refl,
          unfold take_lease in ground (arith, f.found),
          unfold take_lease in ground (arith, f.found),
        )
        | inr ne ↦ (
          exhaust now r,
          at i ∙ rw (ne, there) refl,
          unfold exhaust in ground arith,
          unfold exhaust take_lease in ground arith,
        )
      ]

  counted_holder :
      (j w : ℕ) (change : JobRow → JobRow) (out : Result Error Job) (after : Table)
      → ((s : JobRow) → (change s).id ≡ s.id)
      → ((s : JobRow) → (change s).max_attempts ≡ s.max_attempts)
      → ((s : JobRow) → (change s).attempt_count ≡ s.attempt_count)
      → HolderSpec j w change rows (out, after)
      → AttemptsGrow r 0 (find i after)
  counted_holder j w change (err e) after a b c (same, _) = untouched after same
  counted_holder j w change (ok job) after a b c (s, (h, _, _), e, same) =
      written j s (change s) after h (a s) (b s) (c s)
        (same ∙ ap (λ (x : JobRow). update_row j (λ _. x) rows) e)

  counted_cancel :
      (j : ℕ) (out : Result Error Job) (after : Table)
      → CancelSpec j rows (out, after)
      → AttemptsGrow r 0 (find i after)
  counted_cancel j (err e) after (same, _) = untouched after same
  counted_cancel j (ok job) after (s, h, _, e, same) =
      written j s (dropped s) after h refl refl refl
        (same ∙ ap (λ (x : JobRow). update_row j (λ _. x) rows) e)

  counted_enqueue :
      (dialect : Dialect) (j stamp : ℕ) (spec : JobSpec) (out : Result Error Job) (after : Table)
      → EnqueueSpec dialect j stamp spec rows (out, after)
      → AttemptsGrow r 0 (find i after)
  counted_enqueue dialect j stamp spec (err e) after (_, _, _, same) = untouched after same
  counted_enqueue dialect j stamp spec (ok job) after (inr (k, _, _, same)) = untouched after same
  counted_enqueue dialect j stamp spec (ok job) after (inl (_, _, same)) =
      (r, rw (same, find-append i rows (new_row j stamp spec), there) refl, refl, omega arith)

  counted_heartbeat : (now j w : ℕ) (l : ℤ) → AttemptsGrow r 0 (find i (heartbeat now j w l rows).1)
  counted_heartbeat now j w l = elim (Bool-cases (lease_is_invalid w l)) [
    | inl bad ↦ untouched (heartbeat now j w l rows).1 (unfold heartbeat in rw bad refl)
    | inr good ↦
        counted_holder j w (renewed now l) (heartbeat now j w l rows).0 (heartbeat now j w l rows).1
          (λ s. refl) (λ s. refl) (λ s. refl) (heartbeat_lem now j w l rows good)
  ]

  counted_fail : (now j w e : ℕ) (d : ℤ) → AttemptsGrow r 0 (find i (fail now j w e d rows).1)
  counted_fail now j w e d = elim (Bool-cases (is_negative d)) [
    | inl bad ↦ untouched (fail now j w e d rows).1 (unfold fail in rw bad refl)
    | inr good ↦
        counted_holder j w (released now e d) (fail now j w e d rows).0 (fail now j w e d rows).1
          (λ s. ground arith) (λ s. ground arith) (λ s. ground arith)
          (fail_lem now j w e d rows good)
  ]

  counted :
      (op : Op) → IsValid rows → AttemptsGrow r (hands_out i op rows) (find i (perform op rows))
  unfolding perform
  counted (enqueue_op dialect j stamp spec) v =
      counted_enqueue dialect j stamp spec (enqueue dialect j stamp spec rows).0
        (enqueue dialect j stamp spec rows).1 (enqueue_lem dialect j stamp spec rows)
  counted (claim_op now locked w l) v =
      counted_claim now locked w l (claim now locked w l rows).0 (claim now locked w l rows).1
        (claim-ClaimSpec now locked w l rows v)
  counted (heartbeat_op now j w l) v = counted_heartbeat now j w l
  counted (complete_op j w) v =
      counted_holder j w finished (complete j w rows).0 (complete j w rows).1 (λ s. refl)
        (λ s. refl) (λ s. refl) (complete_lem j w rows)
  counted (fail_op now j w e d) v = counted_fail now j w e d
  counted (cancel_op j) v = counted_cancel j (cancel j rows).0 (cancel j rows).1 (cancel_lem j rows)

run_counted :
    (i : ℕ) (ops : List Op) (rows : Table) (r : JobRow)
    → AreAllowed ops rows
    → IsValid rows
    → find i rows ≡ some r
    → AttemptsGrow r (claims_of i ops rows) (find i (run ops rows))
unfolding run claims_of
run_counted i [] rows r a v h = (r, h, refl, omega arith)
run_counted i (op ∷ ops) rows r a v h =
    let (s, hs, ms, cs) = counted i r rows h op v in
    let (t, ht, mt, ct) =
      run_counted i ops (perform op rows) s a.1 (perform-IsValid op rows a.0 v) hs in
    (t, ht, mt ∙ ms, omega arith)

-- Over any sequence of transactions from a valid table, in which each queued job has a fresh id and at
-- least one attempt, a job that is there is handed to workers at most as often as it has attempts
-- left, and its attempt count grows by just the times that it
-- was handed out.
pub claims_capped :
    (i : ℕ) (ops : List Op) (rows : Table) (r : JobRow)
    → AreAllowed ops rows
    → IsValid rows
    → find i rows ≡ some r
    → (r.attempt_count + claims_of i ops rows ≤ r.max_attempts)
      × ((r' : JobRow) × (find i (run ops rows) ≡ some r')
          × (r'.attempt_count ≡ r.attempt_count + claims_of i ops rows))
claims_capped i ops rows r a v h =
    let (s, hs, ms, cs) = run_counted i ops rows r a v h in
    let sv : RowIsValid s =
      find-All RowIsValid i s (run ops rows) (run-IsValid ops rows a v).rows_valid hs in
    (omega (arith, sv.attempts_capped), (s, hs, cs))
