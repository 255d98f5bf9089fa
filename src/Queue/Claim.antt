-- ===== src/Queue/Claim.antt =====
-- What `claimable_job_statement` selects (src/ragops/persistence/job_queue.py).
use rag_eval_platform.Prelude.{
  ℕ, ◌≡◌, refl, inl, inr, Bool, true, false, not, ◌&&◌, Option, none, some, [], ◌∷◌, arith,
  if◌then◌else◌, Bool-cases, All, contains, Distinct, ==_refl,
}
use rag_eval_platform.Queue.{
  JobRow, Table, find, claimable, precedes, earlier, claimable_job_statement,
}
use rag_eval_platform.Queue.Table.{ids, find-none}

-- claimable, and not locked by another transaction
abbrev pub open_to : ℕ → (ℕ → Bool) → JobRow → Bool
open_to now locked r = claimable now r && not (locked r.id)

-- `r` is a row of the table that can be claimed, and none that can be claimed stands before it.
pub record IsFirst (now : ℕ) (locked : ℕ → Bool) (rows : Table) (r : JobRow) : Type 0 where
  pub found : find r.id rows ≡ some r
  pub ready : open_to now locked r ≡ true
  pub first : All (λ s. open_to now locked s ≡ true → precedes s r ≡ false) rows

abbrev pub Selects : ℕ → (ℕ → Bool) → Table → Option JobRow → Type 0
Selects now locked rows none = All (λ s. open_to now locked s ≡ false) rows
Selects now locked rows (some r) = IsFirst now locked rows r

precedes_irrefl : (r : JobRow) → precedes r r ≡ false
unfolding precedes
precedes_irrefl r = ground arith

precedes_asymm : (r s : JobRow) → precedes s r ≡ true → precedes r s ≡ false
unfolding precedes
precedes_asymm r s h = ground arith

precedes_weak :
    (s b r : JobRow) → precedes s b ≡ false → precedes b r ≡ false → precedes s r ≡ false
unfolding precedes
precedes_weak s b r h k = ground arith

module _ (now : ℕ) (locked : ℕ → Bool) where
  first_of_none :
      (r : JobRow) (rows : Table)
      → All (λ s. open_to now locked s ≡ false) rows
      → All (λ s. open_to now locked s ≡ true → precedes s r ≡ false) rows
  first_of_none r [] a = tt
  first_of_none r (s ∷ rows) a = (λ h. cc, first_of_none r rows a.1)

  first_of_first :
      (r b : JobRow) (rows : Table)
      → precedes b r ≡ false
      → All (λ s. open_to now locked s ≡ true → precedes s b ≡ false) rows
      → All (λ s. open_to now locked s ≡ true → precedes s r ≡ false) rows
  first_of_first r b [] e a = tt
  first_of_first r b (s ∷ rows) e a =
      (λ h. precedes_weak s b r (a.0 h) e, first_of_first r b rows e a.1)

  step_none :
      (r : JobRow) (rows : Table)
      → open_to now locked r ≡ true
      → Selects now locked rows none
      → IsFirst now locked (r ∷ rows) r
  step_none r rows h a = record {
    found = rw (==_refl r.id);
    ready = h;
    first = (λ _. precedes_irrefl r, first_of_none r rows a);
  }

  not_head :
      (i : ℕ) {b : JobRow} (r : JobRow) (rows : Table)
      → contains r.id (ids rows) ≡ false
      → find i rows ≡ some b
      → find i (r ∷ rows) ≡ some b
  not_head i r rows d e = ground (arith, find-none r.id rows)

  step_some :
      (r b : JobRow) (rows : Table) (p : Bool)
      → precedes b r ≡ p
      → contains r.id (ids rows) ≡ false
      → open_to now locked r ≡ true
      → IsFirst now locked rows b
      → IsFirst now locked (r ∷ rows) (if p then b else r)
  step_some r b rows true e d h f = record {
    found = not_head b.id r rows d f.found;
    ready = f.ready;
    first = (λ _. precedes_asymm r b e, f.first);
  }
  step_some r b rows false e d h f = record {
    found = rw (==_refl r.id);
    ready = h;
    first = (λ _. precedes_irrefl r, first_of_first r b rows e f.first);
  }

  step :
      (r : JobRow) (rows : Table) (best : Option JobRow)
      → contains r.id (ids rows) ≡ false
      → open_to now locked r ≡ true
      → Selects now locked rows best
      → IsFirst now locked (r ∷ rows) (earlier r best)
  unfolding earlier
  step r rows none d h f = step_none r rows h f
  step r rows (some b) d h f = step_some r b rows (precedes b r) refl d h f

  skip :
      (r : JobRow) (rows : Table) (best : Option JobRow)
      → contains r.id (ids rows) ≡ false
      → open_to now locked r ≡ false
      → Selects now locked rows best
      → Selects now locked (r ∷ rows) best
  skip r rows none d h f = (h, f)
  skip r rows (some b) d h f = record {
    found = not_head b.id r rows d f.found;
    ready = f.ready;
    first = (λ k. cc, f.first);
  }

  -- The statement returns the first open row in its order, and nothing only if no row is open.
  pub claimable_job_statement-Selects :
      (rows : Table)
      → Distinct (ids rows)
      → Selects now locked rows (claimable_job_statement now locked rows)
  unfolding claimable_job_statement
  claimable_job_statement-Selects [] d = tt
  claimable_job_statement-Selects (r ∷ rows) d =
      let best = claimable_job_statement now locked rows in
      let ih = claimable_job_statement-Selects rows d.1 in
      elim (Bool-cases (open_to now locked r)) [
        | inl h ↦ rw h (step r rows best d.0 h ih)
        | inr h ↦ rw h (skip r rows best d.0 h ih)
      ]
