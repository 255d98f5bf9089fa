-- ===== src/Prelude/Exceptions.antt =====
-- Fallible code, and methods that mutate a state and may raise. What was written before a raise
-- stays written, so the state comes back beside the error; a transaction restores it.
use mathlib.Core.Path.{◌≡◌, refl}
use mathlib.Core.Bool.{Bool, true, false}
use mathlib.Core.Option.{Option, none, some}

pub data Result (E A : Type 0) : Type 0 where
  ok : A → Result E A
  err : E → Result E A

abbrev pub Exec : Type 0 → Type 0 → Type 0 → Type 0
Exec S E A = S → Result E A × S

module _ {S E A : Type 0} where
  abbrev pub pure : A → Exec S E A
  pure a s = (ok a, s)

  abbrev pub raise : E → Exec S E A
  raise e s = (err e, s)

  abbrev pub gets : (S → A) → Exec S E A
  gets f s = (ok (f s), s)

  abbrev pub or_raise : Option A → E → Exec S E A
  or_raise none e = raise e
  or_raise (some a) e = pure a

  -- `async with sessions.begin()`: a raise rolls back what the block wrote.
  abbrev pub commit : S → Result E A × S → Result E A × S
  commit before (ok a, after) = (ok a, after)
  commit before (err e, after) = (err e, before)

  abbrev pub transaction : Exec S E A → Exec S E A
  transaction m s = commit s (m s)

abbrev pub continue : {S E A B : Type 0} → (A → Exec S E B) → Result E A × S → Result E B × S
continue f (ok a, s) = f a s
continue f (err e, s) = (err e, s)

infixl 5 ◌>>=◌ ◌>>◌
abbrev pub ◌>>=◌ : {S E A B : Type 0} → Exec S E A → (A → Exec S E B) → Exec S E B
◌>>=◌ m f s = continue f (m s)

abbrev pub ◌>>◌ : {S E A B : Type 0} → Exec S E A → Exec S E B → Exec S E B
m >> k = m >>= λ _. k

abbrev pub raise_if : {S E : Type 0} → Bool → E → Exec S E Unit
raise_if true e s = (err e, s)
raise_if false e s = (ok tt, s)

abbrev pub modify : {S E : Type 0} → (S → S) → Exec S E Unit
modify f s = (ok tt, f s)

-- The Python exceptions that the platform raises; messages are not modelled.
pub data Error : Type 0 where
  value_error key_error runtime_error type_error : Error
  unknown_job_kind dataset_not_ingested compatible_index_not_found : Error

-- Invariants of a state, carried through a block.
module _ {S E A : Type 0} (P : S → Type 0) where
  pub commit_keeps :
      (before : S) (out : Result E A × S) → P before → P out.1 → P (commit before out).1
  commit_keeps before (ok a, after) b h = h
  commit_keeps before (err e, after) b h = b

  pub continue_keeps :
      {B : Type 0} (f : A → Exec S E B) (out : Result E A × S)
      → P out.1
      → ((a : A) → out.0 ≡ ok a → P (f a out.1).1)
      → P (continue f out).1
  continue_keeps f (ok a, s) h k = k a refl
  continue_keeps f (err e, s) h k = h

-- A chain that returned has come through its first step.
pub continue_ok :
    {S E A B : Type 0} (f : A → Exec S E B) (out : Result E A × S) (b : B) (s' : S)
    → continue f out ≡ (ok b, s')
    → (a : A) × ((s : S) × (out ≡ (ok a, s)) × (f a s ≡ (ok b, s')))
continue_ok f (ok a, s) b s' h = (a, (s, refl, h))
continue_ok f (err e, s) b s' h = cc
