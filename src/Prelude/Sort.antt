-- ===== src/Prelude/Sort.antt =====
-- Python's `sorted`, which is stable, for an order given by its strict test.
use Prim.Native.Nat.{ℕ, suc}
use mathlib.Core.Path.{◌≡◌, refl, ◌∙◌}
use mathlib.Core.Bool.{Bool, true, false, ◌||◌}
use mathlib.Core.Logic.{inl, inr}
use mathlib.Core.List.{List, [], ◌∷◌, Perm}
use mathlib.Core.List.Perm
use native.Mathlib.Omega.{arith}
use rag_eval_platform.Prelude.Tests.{◌==◌, if◌then◌else◌, Bool-cases}
use rag_eval_platform.Prelude.Lists.{All, names, contains, Distinct, length}

module _ {A : Type 0} (lt : A → A → Bool) where
  -- before the first element that is not less
  unfoldable pub insert_sorted : A → List A → List A
  insert_sorted x [] = x ∷ []
  insert_sorted x (y ∷ ys) =
      let rest = insert_sorted x ys in if lt y x then y ∷ rest else x ∷ y ∷ ys

  unfoldable pub sort : List A → List A
  unfolding insert_sorted
  sort [] = []
  sort (x ∷ xs) = insert_sorted x (sort xs)

  -- no element is less than one before it
  abbrev pub IsSorted : List A → Type 0
  IsSorted [] = Unit
  IsSorted (x ∷ xs) = All (λ y. lt y x ≡ false) xs × IsSorted xs

  insert_sorted-perm : (x : A) (ys : List A) → Perm (insert_sorted x ys) (x ∷ ys)
  unfolding insert_sorted
  insert_sorted-perm x [] = Perm.refl (x ∷ [])
  insert_sorted-perm x (y ∷ ys) = elim (Bool-cases (lt y x)) [
    | inl h ↦ rw h (Perm.trans (Perm.cons y (insert_sorted-perm x ys)) (Perm.swap x y ys))
    | inr h ↦ rw h (Perm.refl (x ∷ y ∷ ys))
  ]

  sort-perm : (xs : List A) → Perm (sort xs) xs
  unfolding sort
  sort-perm [] = Perm.refl []
  sort-perm (x ∷ xs) = Perm.trans (insert_sorted-perm x (sort xs)) (Perm.cons x (sort-perm xs))

  insert_sorted-All :
      (P : A → Type 0) (x : A) (ys : List A) → P x → All P ys → All P (insert_sorted x ys)
  unfolding insert_sorted
  insert_sorted-All P x [] p a = (p, tt)
  insert_sorted-All P x (y ∷ ys) p a = elim (Bool-cases (lt y x)) [
    | inl h ↦ rw h (a.0, insert_sorted-All P x ys p a.1)
    | inr h ↦ rw h (p, a)
  ]

  sort-All : (P : A → Type 0) (xs : List A) → All P xs → All P (sort xs)
  unfolding sort
  sort-All P [] a = tt
  sort-All P (x ∷ xs) a = insert_sorted-All P x (sort xs) a.0 (sort-All P xs a.1)

  module _ (f : A → ℕ) where
    contains-insert_sorted :
        (a : ℕ) (x : A) (ys : List A)
        → contains a (names f (insert_sorted x ys)) ≡ (a == f x || contains a (names f ys))
    unfolding insert_sorted
    contains-insert_sorted a x [] = refl
    contains-insert_sorted a x (y ∷ ys) = elim (Bool-cases (lt y x)) [
      | inl h ↦ rw h (ground (arith, contains-insert_sorted a x ys))
      | inr h ↦ rw h refl
    ]

    -- Sorting keeps the names.
    pub contains-sort :
        (a : ℕ) (xs : List A) → contains a (names f (sort xs)) ≡ contains a (names f xs)
    unfolding sort
    contains-sort a [] = refl
    contains-sort a (x ∷ xs) = contains-insert_sorted a x (sort xs) ∙ rw (contains-sort a xs) refl

    Distinct-insert_sorted :
        (x : A) (ys : List A)
        → contains (f x) (names f ys) ≡ false
        → Distinct (names f ys)
        → Distinct (names f (insert_sorted x ys))
    unfolding insert_sorted
    Distinct-insert_sorted x [] h d = (refl, tt)
    Distinct-insert_sorted x (y ∷ ys) h d = elim (Bool-cases (lt y x)) [
      | inl e ↦ rw e (
        ground (arith, contains-insert_sorted (f y) x ys),
        Distinct-insert_sorted x ys (ground arith) d.1,
      )
      | inr e ↦ rw e (h, d)
    ]

    pub Distinct-sort : (xs : List A) → Distinct (names f xs) → Distinct (names f (sort xs))
    unfolding sort
    Distinct-sort [] d = tt
    Distinct-sort (x ∷ xs) d =
        Distinct-insert_sorted x (sort xs) (contains-sort (f x) xs ∙ d.0) (Distinct-sort xs d.1)

  length-insert_sorted : (x : A) (ys : List A) → length (insert_sorted x ys) ≡ suc (length ys)
  unfolding insert_sorted
  length-insert_sorted x [] = refl
  length-insert_sorted x (y ∷ ys) = elim (Bool-cases (lt y x)) [
    | inl h ↦ rw h (omega (arith, length-insert_sorted x ys))
    | inr h ↦ rw h refl
  ]

  length-sort : (xs : List A) → length (sort xs) ≡ length xs
  unfolding sort
  length-sort [] = refl
  length-sort (x ∷ xs) = length-insert_sorted x (sort xs) ∙ omega (arith, length-sort xs)

  module _ (asymm : (x y : A) → lt y x ≡ true → lt x y ≡ false)
      (weak : (x y z : A) → lt y x ≡ false → lt z y ≡ false → lt z x ≡ false) where
    after :
        (x y : A) (ys : List A)
        → lt y x ≡ false
        → All (λ z. lt z y ≡ false) ys
        → All (λ z. lt z x ≡ false) ys
    after x y [] h a = tt
    after x y (z ∷ ys) h a = (weak x y z h a.0, after x y ys h a.1)

    insert_sorted-IsSorted : (x : A) (ys : List A) → IsSorted ys → IsSorted (insert_sorted x ys)
    unfolding insert_sorted
    insert_sorted-IsSorted x [] s = (tt, tt)
    insert_sorted-IsSorted x (y ∷ ys) s = elim (Bool-cases (lt y x)) [
      | inl h ↦ rw h (
        insert_sorted-All (λ z. lt z y ≡ false) x ys (asymm x y h) s.0,
        insert_sorted-IsSorted x ys s.1,
      )
      | inr h ↦ rw h ((h, after x y ys h s.0), s)
    ]

    pub sort-IsSorted : (xs : List A) → IsSorted (sort xs)
    unfolding sort
    sort-IsSorted [] = tt
    sort-IsSorted (x ∷ xs) = insert_sorted-IsSorted x (sort xs) (sort-IsSorted xs)
