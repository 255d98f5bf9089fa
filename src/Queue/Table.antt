-- ===== src/Queue/Table.antt =====
-- The table of jobs under the statements of src/ragops/persistence/job_queue.py: what a lookup
-- finds after an UPDATE.
use rag_eval_platform.Prelude.{
  ℕ, ◌≡◌, refl, ◌∙◌, subst, inl, inr, Bool, true, false, Option, none, some, List, [], ◌∷◌, ◌++◌,
  arith, ◌==◌, opt_eq, is_some, if◌then◌else◌, Bool-cases, All, contains, contains-append, Distinct,
}
use rag_eval_platform.Queue.{
  JobRow, Table, find, update_row, find_key, exhaust, mark_exhausted_leases_failed,
}

abbrev pub ids : Table → List ℕ
ids [] = []
ids (r ∷ rows) = r.id ∷ ids rows

abbrev pub idempotency_keys : Table → List (Option ℕ)
idempotency_keys [] = []
idempotency_keys (r ∷ rows) = r.idempotency_key ∷ idempotency_keys rows

-- a key that a job has not been queued under
abbrev pub IsFree : Option ℕ → List (Option ℕ) → Type 0
IsFree none taken = Unit
IsFree (some k) [] = Unit
IsFree (some k) (j ∷ taken) = (opt_eq j (some k) ≡ false) × IsFree (some k) taken

abbrev pub KeysDistinct : List (Option ℕ) → Type 0
KeysDistinct [] = Unit
KeysDistinct (k ∷ taken) = IsFree k taken × KeysDistinct taken

opt_eq_sym : (a b : Option ℕ) → opt_eq a b ≡ opt_eq b a
opt_eq_sym none none = refl
opt_eq_sym none (some b) = refl
opt_eq_sym (some a) none = refl
opt_eq_sym (some a) (some b) = ground arith

IsFree-append :
    (key k : Option ℕ) (taken : List (Option ℕ))
    → opt_eq k key ≡ false
    → IsFree key taken
    → IsFree key (taken ++ k ∷ [])
IsFree-append none k taken e h = tt
IsFree-append (some n) k [] e h = (e, tt)
IsFree-append (some n) k (j ∷ taken) e h = (h.0, IsFree-append (some n) k taken e h.1)

IsFree-append_none :
    (key : Option ℕ) (taken : List (Option ℕ)) → IsFree key taken → IsFree key (taken ++ none ∷ [])
IsFree-append_none none taken h = tt
IsFree-append_none (some n) [] h = (refl, tt)
IsFree-append_none (some n) (j ∷ taken) h = (h.0, IsFree-append_none (some n) taken h.1)

pub KeysDistinct-append_none :
    (taken : List (Option ℕ)) → KeysDistinct taken → KeysDistinct (taken ++ none ∷ [])
KeysDistinct-append_none [] h = (tt, tt)
KeysDistinct-append_none (k ∷ taken) h =
    (IsFree-append_none k taken h.0, KeysDistinct-append_none taken h.1)

pub KeysDistinct-append :
    (key : ℕ) (taken : List (Option ℕ))
    → IsFree (some key) taken
    → KeysDistinct taken
    → KeysDistinct (taken ++ some key ∷ [])
KeysDistinct-append key [] f h = (tt, tt)
KeysDistinct-append key (none ∷ taken) f h = (tt, KeysDistinct-append key taken f.1 h.1)
KeysDistinct-append key (some n ∷ taken) f h = (
  IsFree-append (some n) (some key) taken (opt_eq_sym (some key) (some n) ∙ f.0) h.0,
  KeysDistinct-append key taken f.1 h.1,
)

pub ids-append : (rows : Table) (r : JobRow) → ids (rows ++ r ∷ []) ≡ ids rows ++ r.id ∷ []
ids-append [] r = refl
ids-append (s ∷ rows) r = rw (ids-append rows r)

pub idempotency_keys-append :
    (rows : Table) (r : JobRow)
    → idempotency_keys (rows ++ r ∷ []) ≡ idempotency_keys rows ++ r.idempotency_key ∷ []
idempotency_keys-append [] r = refl
idempotency_keys-append (s ∷ rows) r = rw (idempotency_keys-append rows r)

pub Distinct-append_new :
    (i : ℕ) (xs : List ℕ) → contains i xs ≡ false → Distinct xs → Distinct (xs ++ i ∷ [])
Distinct-append_new i [] h d = (refl, tt)
Distinct-append_new i (x ∷ xs) h d =
    (ground (arith, contains-append x xs (i ∷ [])), Distinct-append_new i xs (ground arith) d.1)

pub find_key-none :
    (k : ℕ) (rows : Table) → find_key k rows ≡ none → IsFree (some k) (idempotency_keys rows)
find_key-none k [] h = tt
find_key-none k (r ∷ rows) h = (ground arith, find_key-none k rows (ground arith))

pub find-id : (i : ℕ) (r : JobRow) (rows : Table) → find i rows ≡ some r → r.id ≡ i
find-id i r [] h = cc
find-id i r (s ∷ rows) h = ground (arith, find-id i r rows)

pub find-none : (i : ℕ) (rows : Table) → contains i (ids rows) ≡ false → find i rows ≡ none
find-none i [] h = refl
find-none i (s ∷ rows) h = ground (arith, find-none i rows)

pub find-All :
    (P : JobRow → Type 0) (i : ℕ) (r : JobRow) (rows : Table)
    → All P rows
    → find i rows ≡ some r
    → P r
find-All P i r [] a h = cc
find-All P i r (s ∷ rows) a h = elim (Bool-cases (i == s.id)) [
  | inl same ↦ subst P (ground arith) a.0
  | inr other ↦ find-All P i r rows a.1 (ground arith)
]

pub find-append :
    (i : ℕ) (rows : Table) (r : JobRow)
    → find i (rows ++ r ∷ [])
      ≡ (if is_some (find i rows) then find i rows else (if i == r.id then some r else none))
find-append i [] r = refl
find-append i (s ∷ rows) r = ground (arith, find-append i rows r)

module _ (i : ℕ) (r' : JobRow) where
  pub update_row-All :
      (P : JobRow → Type 0) (rows : Table) → P r' → All P rows → All P (update_row i (λ _. r') rows)
  update_row-All P [] p a = tt
  update_row-All P (s ∷ rows) p a = (go (i == s.id), update_row-All P rows p a.1)
    where
      go : (b : Bool) → P (if b then r' else s)
      go true = p
      go false = a.0

  update_row-absent :
      (rows : Table) → contains i (ids rows) ≡ false → update_row i (λ _. r') rows ≡ rows
  update_row-absent [] h = refl
  update_row-absent (s ∷ rows) h = ground (arith, update_row-absent rows)

  module _ (same_id : r'.id ≡ i) where
    pub ids-update_row : (rows : Table) → ids (update_row i (λ _. r') rows) ≡ ids rows
    ids-update_row [] = refl
    ids-update_row (s ∷ rows) = ground (arith, ids-update_row rows)

    pub find-update_row :
        (j : ℕ) (rows : Table)
        → find j (update_row i (λ _. r') rows)
          ≡ (if j == i then (if is_some (find j rows) then some r' else none) else find j rows)
    find-update_row j [] = ground arith
    find-update_row j (s ∷ rows) = ground (arith, find-update_row j rows)

  pub keys-update_row :
      (r : JobRow) (rows : Table)
      → Distinct (ids rows)
      → find i rows ≡ some r
      → r'.idempotency_key ≡ r.idempotency_key
      → idempotency_keys (update_row i (λ _. r') rows) ≡ idempotency_keys rows
  keys-update_row r [] d h e = refl
  keys-update_row r (s ∷ rows) d h e = elim (Bool-cases (i == s.id)) [
    | inl same ↦ rw (same, update_row-absent rows (ground arith)) (ground arith)
    | inr other ↦ rw (other, keys-update_row r rows d.1 (ground arith) e)
  ]

-- An UPDATE that writes back the row that is there changes nothing.
update_row_self :
    (i : ℕ) (r : JobRow) (rows : Table)
    → Distinct (ids rows)
    → find i rows ≡ some r
    → update_row i (λ _. r) rows ≡ rows
update_row_self i r [] d h = refl
update_row_self i r (s ∷ rows) d h = elim (Bool-cases (i == s.id)) [
  | inl same ↦ rw (same, update_row-absent i r rows (ground arith)) (ground arith)
  | inr other ↦ rw (other, update_row_self i r rows d.1 (ground arith))
]

exhaust-id : (now : ℕ) (r : JobRow) → (exhaust now r).id ≡ r.id
unfolding exhaust
exhaust-id now r = ground arith

pub ids-mark : (now : ℕ) (rows : Table) → ids (mark_exhausted_leases_failed now rows) ≡ ids rows
unfolding mark_exhausted_leases_failed
ids-mark now [] = refl
ids-mark now (r ∷ rows) = ground (arith, ids-mark now rows, exhaust-id now r)

pub keys-mark :
    (now : ℕ) (rows : Table)
    → idempotency_keys (mark_exhausted_leases_failed now rows) ≡ idempotency_keys rows
unfolding mark_exhausted_leases_failed
keys-mark now [] = refl
keys-mark now (r ∷ rows) = ground (arith, keys-mark now rows)

abbrev pub exhaust_found : ℕ → Option JobRow → Option JobRow
exhaust_found now none = none
exhaust_found now (some r) = some (exhaust now r)

pub find-mark :
    (now i : ℕ) (rows : Table)
    → find i (mark_exhausted_leases_failed now rows) ≡ exhaust_found now (find i rows)
unfolding mark_exhausted_leases_failed
find-mark now i [] = refl
find-mark now i (r ∷ rows) = rw (exhaust-id now r) (ground (arith, find-mark now i rows))
