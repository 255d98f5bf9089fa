-- ===== src/Runner/Triples.antt =====
-- Rules for the tasks of the runner (src/ragops/evaluation/runner.py): a task that starts where `P`
-- holds of the database returns where `Q` holds, or raises where `R` holds. What holds of the database
-- and stays true as it grows survives the turns of others.
use rag_eval_platform.Prelude.{
  ℕ, ◌≡◌, refl, Bool, true, false, Option, none, some, List, [], ◌∷◌, if◌then◌else◌, Result, ok,
  err, pure, or_raise, continue, commit, ◌>>=◌, raise_if, Error,
}
use rag_eval_platform.Runs.Store.{Database, Session}
use rag_eval_platform.Runs.Store.Pins.{run}
use rag_eval_platform.Runner.{Turn, World, Task, after_turn, wait, back, in_transaction, ask, lift}
use rag_eval_platform.Runs.Store.Evolution.{Evolves}
use rag_eval_platform.Runs.Store.Evolution.Steps.{run-Evolves}

abbrev pub After :
    {A : Type 0} → (A → Database → Type 0) → (Database → Type 0) → Result Error A × World → Type 0
After Q R (ok a, w) = Q a w.db
After Q R (err x, w) = R w.db

abbrev pub Triple :
    {A : Type 0}
    → (Database → Type 0)
    → Task A
    → (A → Database → Type 0)
    → (Database → Type 0)
    → Type 0
Triple P m Q R = (w : World) → P w.db → After Q R (m w)

abbrev pub Grows : (Database → Type 0) → Type 0
Grows P = (a b : Database) → Evolves a b → P a → P b

module _ (R : Database → Type 0) where
  pub then_rule :
      {A B : Type 0} (P : Database → Type 0) (Q : A → Database → Type 0) (S : B → Database → Type 0)
      (m : Task A) (f : A → Task B)
      → Triple P m Q R
      → ((a : A) → Triple (Q a) (f a) S R)
      → Triple P (m >>= f) S R
  then_rule {A} {B} P Q S m f h k w p = go (m w) (h w p)
    where
      go : (out : Result Error A × World) → After Q R out → After S R (continue f out)
      go (ok a, w') q = k a w' q
      go (err x, w') r = r

  pure_rule :
      {A : Type 0} (P : Database → Type 0) (Q : A → Database → Type 0) (a : A)
      → ((db : Database) → P db → Q a db)
      → Triple P (pure a) Q R
  pure_rule P Q a h w p = h w.db p

  pub weaken_rule :
      {A : Type 0} (P P' : Database → Type 0) (Q Q' : A → Database → Type 0) (m : Task A)
      → ((db : Database) → P' db → P db)
      → ((a : A) (db : Database) → Q a db → Q' a db)
      → Triple P m Q R
      → Triple P' m Q' R
  weaken_rule {A} P P' Q Q' m h k t w p = go (m w) (t w (h w.db p))
    where
      go : (out : Result Error A × World) → After Q R out → After Q' R out
      go (ok a, w') q = k a w'.db q
      go (err x, w') r = r

  -- a test, in whose branches the test is known
  pub if_rule :
      {A : Type 0} (P : Database → Type 0) (Q : A → Database → Type 0) (b : Bool) (m k : Task A)
      → (b ≡ true → Triple P m Q R)
      → (b ≡ false → Triple P k Q R)
      → Triple P (if b then m else k) Q R
  if_rule P Q true m k h l = h refl
  if_rule P Q false m k h l = l refl

module _ (R : Database → Type 0) (P : Database → Type 0)
    (falls : (db : Database) → P db → R db) where
  pub raise_if_rule :
      (b : Bool) (x : Error) → Triple P (raise_if b x) (λ u db. (b ≡ false) × P db) R
  raise_if_rule true x w p = falls w.db p
  raise_if_rule false x w p = (refl, p)

  pub or_raise_rule :
      {A : Type 0} (o : Option A) (x : Error)
      → Triple P (or_raise o x) (λ a db. (o ≡ some a) × P db) R
  or_raise_rule none x w p = falls w.db p
  or_raise_rule (some a) x w p = (refl, p)

  pub lift_rule :
      {A : Type 0} (r : Result Error A) → Triple P (lift r) (λ a db. (r ≡ ok a) × P db) R
  lift_rule (ok a) w p = (refl, p)
  lift_rule (err x) w p = falls w.db p

  module _ (grows : Grows P) where
    wait-grows : (w : World) → P w.db → P (wait w).db
    wait-grows w p = go w.turns
      where
        go : (turns : List Turn) → P (after_turn turns w).db
        go [] = p
        go (t ∷ turns) = grows w.db (run t.others w.db) (run-Evolves t.others w.db) p

    pub ask_rule :
        {A : Type 0} (f : ℕ → Result Error A)
        → Triple P (ask f) (λ a db. ((now : ℕ) × (f now ≡ ok a)) × P db) R
    unfolding ask
    ask_rule {A} f w p = go (f (wait w).now) refl
      where
        go :
            (r : Result Error A)
            → f (wait w).now ≡ r
            → After (λ a db. ((now : ℕ) × (f now ≡ ok a)) × P db) R (r, wait w)
        go (ok a) e = (((wait w).now, e), wait-grows w p)
        go (err x) e = falls (wait w).db (wait-grows w p)

    -- a transaction, which is rolled back where it raises
    pub call_rule :
        {A : Type 0} (Q : A → Database → Type 0) (m : ℕ → Session A)
        → ((now : ℕ) (db : Database) (a : A) (db' : Database)
            → P db
            → m now db ≡ (ok a, db')
            → Q a db')
        → Triple P (in_transaction m) Q R
    unfolding in_transaction
    call_rule {A} Q m h w p =
        go (m (wait w).now (wait w).db)
          (λ a db' e. h (wait w).now (wait w).db a db' (wait-grows w p) e)
      where
        go :
            (out : Result Error A × Database)
            → ((a : A) (db' : Database) → out ≡ (ok a, db') → Q a db')
            → After Q R (back (wait w) (commit (wait w).db out))
        go (ok a, db') q = q a db' refl
        go (err x, db') q = falls (wait w).db (wait-grows w p)
