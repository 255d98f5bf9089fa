-- ===== src/Queue/Claims.antt =====
-- `claim` in terms of the row operations that it calls (src/ragops/persistence/job_queue.py).
use rag_eval_platform.Prelude.{
  ℕ, ◌≡◌, refl, ◌∙◌, inl, inr, Bool, true, false, Option, none, some, [], ◌∷◌, arith, ◌==◌,
  if◌then◌else◌, Bool-cases, All, Result, ok, err, ℤ, Error, value_error,
}
use rag_eval_platform.Queue.{
  JobRow, Job, Table, find, exhaust, mark_exhausted_leases_failed, claimable,
  claimable_job_statement, claim_row, claim, take_lease, lease_is_invalid,
}
use rag_eval_platform.Queue.Table.{find-update_row, find-mark, exhaust_found}
use rag_eval_platform.Queue.Invariant.{IsValid}
use rag_eval_platform.Queue.Claim.{open_to, IsFirst, Selects, claimable_job_statement-Selects}

exhaust_open :
    (now : ℕ) (locked : ℕ → Bool) (r : JobRow) → open_to now locked r ≡ true → exhaust now r ≡ r
unfolding exhaust claimable
exhaust_open now locked r h = ground arith

open_to-exhaust :
    (now : ℕ) (locked : ℕ → Bool) (r : JobRow)
    → open_to now locked (exhaust now r) ≡ open_to now locked r
unfolding exhaust claimable
open_to-exhaust now locked r = ground arith

-- Failing the exhausted leases first does not change which row is claimed.
statement-mark :
    (now : ℕ) (locked : ℕ → Bool) (rows : Table)
    → claimable_job_statement now locked (mark_exhausted_leases_failed now rows)
      ≡ claimable_job_statement now locked rows
unfolding claimable_job_statement mark_exhausted_leases_failed
statement-mark now locked [] = refl
statement-mark now locked (r ∷ rows) = elim (Bool-cases (open_to now locked r)) [
  | inl h ↦ rw (exhaust_open now locked r h, statement-mark now locked rows)
  | inr h ↦ rw (open_to-exhaust now locked r, h, statement-mark now locked rows)
]

-- what `claim` returns and leaves
abbrev pub ClaimSpec : ℕ → (ℕ → Bool) → ℕ → ℤ → Table → Result Error (Option Job) × Table → Type 0
ClaimSpec now locked w l rows (err e, after) =
    (lease_is_invalid w l ≡ true) × (e ≡ value_error) × (after ≡ rows)
ClaimSpec now locked w l rows (ok none, after) =
    (lease_is_invalid w l ≡ false)
    × All (λ s. open_to now locked s ≡ false) rows
    × (after ≡ mark_exhausted_leases_failed now rows)
ClaimSpec now locked w l rows (ok (some job), after) =
    (r : JobRow) × (lease_is_invalid w l ≡ false)
    × IsFirst now locked rows r
    × (job ≡ take_lease now w l r)
    × ((j : ℕ) → find j after ≡ (if j == r.id then some job else exhaust_found now (find j rows)))

claim_row-ClaimSpec :
    (now : ℕ) (locked : ℕ → Bool) (w : ℕ) (l : ℤ) (rows : Table) (best : Option JobRow)
    → lease_is_invalid w l ≡ false
    → Selects now locked rows best
    → ClaimSpec now locked w l rows (claim_row now w l best (mark_exhausted_leases_failed now rows))
unfolding claim_row
claim_row-ClaimSpec now locked w l rows none v s = (v, s, refl)
claim_row-ClaimSpec now locked w l rows (some r) v s =
    let job : JobRow = take_lease now w l r in
    (
      r,
      v,
      s,
      refl,
      λ j.
          find-update_row r.id job refl j (mark_exhausted_leases_failed now rows)
          ∙ ground (arith, find-mark now j rows, s.found),
    )

pub claim-ClaimSpec :
    (now : ℕ) (locked : ℕ → Bool) (worker_id : ℕ) (lease_seconds : ℤ) (rows : Table)
    → IsValid rows
    → ClaimSpec now locked worker_id lease_seconds rows
        (claim now locked worker_id lease_seconds rows)
unfolding claim
claim-ClaimSpec now locked w l rows v = elim (Bool-cases (lease_is_invalid w l)) [
  | inl bad ↦ rw bad (bad, refl, refl)
  | inr good ↦
      rw (good, statement-mark now locked rows)
        (claim_row-ClaimSpec now locked w l rows (claimable_job_statement now locked rows) good
          (claimable_job_statement-Selects now locked rows v.ids_distinct))
]
