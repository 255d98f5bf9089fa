-- ===== src/Prelude/Reorder.antt =====
-- Sorting forgets the order of its input.
use Prim.Native.Nat.{ℕ}
use mathlib.Core.Path.{◌≡◌, refl, sym, ap, ◌∙◌, subst}
use mathlib.Core.Bool.{Bool, true, false, ◌||◌}
use mathlib.Core.Logic.{inl, inr}
use mathlib.Core.List.{List, [], ◌∷◌, Permᴰ}
use native.Mathlib.Omega.{arith}
use rag_eval_platform.Prelude.Tests.{◌==◌, Bool-cases}
use rag_eval_platform.Prelude.Lists.{names, contains, Distinct}
use rag_eval_platform.Prelude.Sort.{insert_sorted, sort}

-- On elements of which any two come in one order, sorting does not depend on the order of the input.
module _ {A : Type 0} (lt : A → A → Bool) (f : A → ℕ)
    (asymm : (x y : A) → lt y x ≡ true → lt x y ≡ false)
    (weak : (x y z : A) → lt y x ≡ false → lt z y ≡ false → lt z x ≡ false)
    (total : (x y : A) → (f x == f y) ≡ false → lt y x ≡ false → lt x y ≡ true) where
  insert_sorted_comm :
      (x y : A) (zs : List A)
      → (f x == f y) ≡ false
      → insert_sorted lt x (insert_sorted lt y zs) ≡ insert_sorted lt y (insert_sorted lt x zs)
  unfolding insert_sorted
  insert_sorted_comm x y [] d = ground (arith, asymm x y, asymm y x, total x y, total y x)
  insert_sorted_comm x y (z ∷ zs) d = elim (Bool-cases (lt z x)) [
    | inl a ↦ elim (Bool-cases (lt z y)) [
      | inl b ↦ heads a b (insert_sorted_comm x y zs d)
      | inr b ↦ ground (arith, a, b, weak x y z)
    ]
    | inr a ↦ elim (Bool-cases (lt z y)) [
      | inl b ↦ ground (arith, a, b, weak y x z)
      | inr b ↦ ground (arith, a, b, asymm x y, asymm y x, total x y, total y x)
    ]
  ]
    where
      heads :
          lt z x ≡ true
          → lt z y ≡ true
          → insert_sorted lt x (insert_sorted lt y zs) ≡ insert_sorted lt y (insert_sorted lt x zs)
          → insert_sorted lt x (insert_sorted lt y (z ∷ zs))
            ≡ insert_sorted lt y (insert_sorted lt x (z ∷ zs))
      heads a b ih = ground (arith, a, b, ih)

  contains-perm :
      (k : ℕ) (xs ys : List A) → Permᴰ xs ys → contains k (names f xs) ≡ contains k (names f ys)
  contains-perm k xs ys Permᴰ.nil = refl
  contains-perm k xs ys (Permᴰ.cons {a = a} {b = b} {l₁ = l} {l₂ = m} e d) =
      rw e (ap (λ c. k == f b || c) (contains-perm k l m d))
  contains-perm k xs ys (Permᴰ.swap {a = a} {b = b} {a' = a'} {b' = b'} {l = l} e d) =
      rw (e, d) (ground arith)
  contains-perm k xs ys (Permᴰ.trans {l₂ = m} d d') =
      contains-perm k xs m d ∙ contains-perm k m ys d'

  exchanged : (a b a' b' : A) (l : List A) → a ≡ b' → b ≡ a' → b ∷ a ∷ l ≡ a' ∷ b' ∷ l
  exchanged a b a' b' l e d = cc

  Distinct-perm : (xs ys : List A) → Permᴰ xs ys → Distinct (names f xs) → Distinct (names f ys)
  Distinct-perm xs ys Permᴰ.nil h = tt
  Distinct-perm xs ys (Permᴰ.cons {a = a} {b = b} {l₁ = l} {l₂ = m} e d) h = (
    ap (λ (c : A). contains (f c) (names f m)) (sym e) ∙ sym (contains-perm (f a) l m d) ∙ h.0,
    Distinct-perm l m d h.1,
  )
  Distinct-perm xs ys (Permᴰ.swap {a = a} {b = b} {a' = a'} {b' = b'} {l = l} e d) h =
      subst (λ (t : List A). Distinct (names f t)) (exchanged a b a' b' l e d)
        (ground (arith, h.0, h.1.0, h.1.1))
  Distinct-perm xs ys (Permᴰ.trans {l₂ = m} d d') h = Distinct-perm m ys d' (Distinct-perm xs m d h)

  pub sort-perm_eq :
      (xs ys : List A) → Permᴰ xs ys → Distinct (names f xs) → sort lt xs ≡ sort lt ys
  unfolding sort
  sort-perm_eq xs ys Permᴰ.nil h = refl
  sort-perm_eq xs ys (Permᴰ.cons {a = a} {b = b} {l₁ = l} {l₂ = m} e d) h =
      rw e (ap (insert_sorted lt b) (sort-perm_eq l m d h.1))
  sort-perm_eq xs ys (Permᴰ.swap {a = a} {b = b} {a' = a'} {b' = b'} {l = l} e d) h =
      rw (e, d) (insert_sorted_comm b' a' (sort lt l) (ground arith))
  sort-perm_eq xs ys (Permᴰ.trans {l₂ = m} d d') h =
      sort-perm_eq xs m d h ∙ sort-perm_eq m ys d' (Distinct-perm xs m d h)
