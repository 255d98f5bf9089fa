-- ===== src/Queue/Phases.antt =====
-- The abstract machine of one job, and what the row operations of the queue do in it
-- (src/ragops/persistence/job_queue.py).
use rag_eval_platform.Prelude.{
  ltb, ℕ, ◌+◌, ◌≤◌, ◌<◌, ◌≡◌, refl, sym, ap, ◌∙◌, subst, inl, inr, true, false, ◌||◌, Option, none,
  some, arith, Bool-cases, ℤ,
}
use rag_eval_platform.Queue.{
  JobStatus, pending, leased, completed, failed, cancelled, is_pending, is_leased, JobRow, exhaust,
  is_exhausted, is_finished,
}
use rag_eval_platform.Queue.Lease.{released, finished}

-- The abstract job: it waits, is held by a worker, or is over; with the attempts that it has used.
pub data Phase : Type 0 where
  waiting : ℕ → Phase
  held : ℕ → ℕ → Phase
  succeeded gave_up withdrawn : Phase

-- Its moves, where it has `cap` attempts.
pub data Moves (cap : ℕ) : Phase → Phase → Type 0 where
  stays : (p : Phase) → Moves cap p p
  granted : (w n : ℕ) → n < cap → Moves cap (waiting n) (held w (n + 1))
  taken_over : (v w n : ℕ) → n < cap → Moves cap (held v n) (held w (n + 1))
  succeeds : (w n : ℕ) → Moves cap (held w n) succeeded
  retries : (w n : ℕ) → n < cap → Moves cap (held w n) (waiting n)
  gives_up : (w n : ℕ) → cap ≤ n → Moves cap (held w n) gave_up
  withdraws : (n : ℕ) → Moves cap (waiting n) withdrawn
  is_taken_away : (w n : ℕ) → Moves cap (held w n) withdrawn

pub data Reaches (cap : ℕ) : Phase → Phase → Type 0 where
  here : (p : Phase) → Reaches cap p p
  next : {p q r : Phase} → Moves cap p q → Reaches cap q r → Reaches cap p r

-- the phase of a row
abbrev phase_at : JobStatus → Option ℕ → ℕ → Phase
phase_at pending owner n = waiting n
phase_at leased none n = held 0 n
phase_at leased (some w) n = held w n
phase_at completed owner n = succeeded
phase_at failed owner n = gave_up
phase_at cancelled owner n = withdrawn

abbrev pub phase_of : JobRow → Phase
phase_of r = phase_at r.status r.leased_by r.attempt_count

abbrev pub RowMoves : JobRow → JobRow → Type 0
RowMoves r r' = (r'.max_attempts ≡ r.max_attempts) × Moves r.max_attempts (phase_of r) (phase_of r')

pub grants :
    (cap w n : ℕ) (s : JobStatus) (o : Option ℕ)
    → (is_pending s || is_leased s) ≡ true
    → n < cap
    → Moves cap (phase_at s o n) (held w (n + 1))
grants cap w n pending o h l = granted w n l
grants cap w n leased none h l = taken_over 0 w n l
grants cap w n leased (some v) h l = taken_over v w n l
grants cap w n completed o h l = cc
grants cap w n failed o h l = cc
grants cap w n cancelled o h l = cc

fails_lease :
    (cap n : ℕ) (s : JobStatus) (o : Option ℕ)
    → is_leased s ≡ true
    → cap ≤ n
    → Moves cap (phase_at s o n) gave_up
fails_lease cap n leased none h l = gives_up 0 n l
fails_lease cap n leased (some w) h l = gives_up w n l
fails_lease cap n pending o h l = cc
fails_lease cap n completed o h l = cc
fails_lease cap n failed o h l = cc
fails_lease cap n cancelled o h l = cc

pub cancels :
    (cap n : ℕ) (s : JobStatus) (o : Option ℕ)
    → is_finished s ≡ false
    → Moves cap (phase_at s o n) withdrawn
cancels cap n pending o h = withdraws n
cancels cap n leased none h = is_taken_away 0 n
cancels cap n leased (some w) h = is_taken_away w n
cancels cap n completed o h = cc
cancels cap n failed o h = cc
cancels cap n cancelled o h = stays withdrawn

-- the row that a worker holds
held_phase :
    (w : ℕ) (r : JobRow)
    → r.status ≡ leased
    → r.leased_by ≡ some w
    → phase_of r ≡ held w r.attempt_count
held_phase w r s o =
    ap (λ x. phase_at x r.leased_by r.attempt_count) s
    ∙ ap (λ x. phase_at leased x r.attempt_count) o

pub exhaust-RowMoves : (now : ℕ) (r : JobRow) → RowMoves r (exhaust now r)
unfolding exhaust
exhaust-RowMoves now r = elim (Bool-cases (is_exhausted now r)) [
  | inl h ↦ rw h (
    refl,
    fails_lease r.max_attempts r.attempt_count r.status r.leased_by (ground (arith, h))
        (ground (arith, h)),
  )
  | inr h ↦ rw h (refl, stays (phase_of r))
]

module _ (w : ℕ) (r : JobRow) (s : r.status ≡ leased) (o : r.leased_by ≡ some w) where
  from_held :
      (q : Phase)
      → Moves r.max_attempts (held w r.attempt_count) q
      → Moves r.max_attempts (phase_of r) q
  from_held q m = subst (λ (p : Phase). Moves r.max_attempts p q) (sym (held_phase w r s o)) m

  pub finished-RowMoves : RowMoves r (finished r)
  finished-RowMoves = (refl, from_held succeeded (succeeds w r.attempt_count))

  pub released-RowMoves : (now e : ℕ) (d : ℤ) → RowMoves r (released now e d r)
  released-RowMoves now e d = elim (Bool-cases (ltb r.attempt_count r.max_attempts)) [
    | inl h ↦
        rw h (
          refl,
          from_held (waiting r.attempt_count) (retries w r.attempt_count (ground (arith, h))),
        )
    | inr h ↦ rw h (refl, from_held gave_up (gives_up w r.attempt_count (ground (arith, h))))
  ]
