-- ===== src/Prelude/Dict.antt =====
-- A Python dict keyed by names, in insertion order.
use Prim.Native.Nat.{ℕ}
use mathlib.Core.Path.{◌≡◌, refl}
use mathlib.Core.Logic.{inl, inr}
use mathlib.Core.Bool.{true, false}
use mathlib.Core.Option.{Option, none, some}
use mathlib.Core.List.{List, [], ◌∷◌}
use native.Mathlib.Omega.{arith}
use rag_eval_platform.Prelude.Tests.{◌==◌, if◌then◌else◌, Bool-cases}
use rag_eval_platform.Prelude.Lists.{contains, Distinct}

abbrev pub Dict {ℓ} : Type ℓ → Type ℓ
Dict V = List (ℕ × V)

module _ {ℓ} {V : Type ℓ} where
  -- `d.get(k)`
  abbrev pub lookup : ℕ → Dict V → Option V
  lookup k [] = none
  lookup k ((j, v) ∷ d) = if k == j then some v else lookup k d

  -- `d.get(k, default)`
  abbrev pub lookup_or : ℕ → V → Dict V → V
  lookup_or k v d = elim (lookup k d) [ none ↦ v | some w ↦ w ]

  -- `d[k] = v`
  abbrev pub insert : ℕ → V → Dict V → Dict V
  insert k v [] = (k, v) ∷ []
  insert k v (e ∷ d) = if k == e.0 then (k, v) ∷ d else e ∷ insert k v d

  abbrev pub keys : Dict V → List ℕ
  keys [] = []
  keys (e ∷ d) = e.0 ∷ keys d

  pub lookup-insert :
      (j k : ℕ) (v : V) (d : Dict V)
      → lookup j (insert k v d) ≡ (if j == k then some v else lookup j d)
  lookup-insert j k v [] = refl
  lookup-insert j k v (e ∷ d) = ground (arith, lookup-insert j k v d)

  pub lookup-none_iff : (k : ℕ) (d : Dict V) → contains k (keys d) ≡ false → lookup k d ≡ none
  lookup-none_iff k [] h = refl
  lookup-none_iff k (e ∷ d) h = ground (arith, lookup-none_iff k d)

  pub lookup-found :
      (k : ℕ) (d : Dict V) → contains k (keys d) ≡ true → (v : V) × (lookup k d ≡ some v)
  lookup-found k [] h = cc
  lookup-found k (e ∷ d) h = elim (Bool-cases (k == e.0)) [
    | inl same ↦ (e.1, rw same refl)
    | inr other ↦
        let (v, found) = lookup-found k d (ground (arith, h, other)) in (v, rw other found)
  ]

  pub contains-keys-insert :
      (j k : ℕ) (v : V) (d : Dict V)
      → contains j (keys (insert k v d)) ≡ (if j == k then true else contains j (keys d))
  contains-keys-insert j k v [] = ground arith
  contains-keys-insert j k v (e ∷ d) = ground (arith, contains-keys-insert j k v d)

  -- Assignment keeps the keys distinct.
  pub Distinct-keys-insert :
      (k : ℕ) (v : V) (d : Dict V) → Distinct (keys d) → Distinct (keys (insert k v d))
  Distinct-keys-insert k v [] h = (refl, tt)
  Distinct-keys-insert k v (e ∷ d) h =
      ground (arith, Distinct-keys-insert k v d h.1, contains-keys-insert e.0 k v d)
