-- ===== src/Prelude/Lists.antt =====
-- Lists measured by native numbers, under the library's names, and predicates by recursion.
use Prim.Native.Nat.{ℕ, zero, suc, ◌+◌, min}
use mathlib.Core.Path.{◌≡◌, refl}
use mathlib.Core.Bool.{Bool, true, false, not, ◌||◌, ◌&&◌}
use mathlib.Core.List.{List, [], ◌∷◌, ◌++◌}
use native.Mathlib.Omega.{arith}
use rag_eval_platform.Prelude.Tests.{◌==◌, ==_refl, if◌then◌else◌}

module _ {ℓ} {A : Type ℓ} where
  abbrev pub length : List A → ℕ
  length [] = 0
  length (x ∷ xs) = suc (length xs)

  abbrev pub take : ℕ → List A → List A
  take zero xs = []
  take (suc n) [] = []
  take (suc n) (x ∷ xs) = x ∷ take n xs

  -- `[x for x in xs if keep(x)]`
  abbrev pub filter : (A → Bool) → List A → List A
  filter keep [] = []
  filter keep (x ∷ xs) = let rest = filter keep xs in if keep x then x ∷ rest else rest

  -- `any(...)`
  abbrev pub any : (A → Bool) → List A → Bool
  any test [] = false
  any test (x ∷ xs) = test x || any test xs

  -- `all(...)`
  abbrev pub all : (A → Bool) → List A → Bool
  all test [] = true
  all test (x ∷ xs) = test x && all test xs

  abbrev pub All {κ} : (A → Type κ) → List A → Type κ
  All P [] = Unit
  All P (x ∷ xs) = P x × All P xs

  length-append : (xs ys : List A) → length (xs ++ ys) ≡ length xs + length ys
  length-append [] ys = omega arith
  length-append (x ∷ xs) ys = omega (arith, length-append xs ys)

  pub length-take : (n : ℕ) (xs : List A) → length (take n xs) ≡ min n (length xs)
  length-take zero xs = omega arith
  length-take (suc n) [] = omega arith
  length-take (suc n) (x ∷ xs) = omega (arith, length-take n xs)

  All-append {κ} : (P : A → Type κ) (xs ys : List A) → All P xs → All P ys → All P (xs ++ ys)
  All-append P [] ys h k = k
  All-append P (x ∷ xs) ys h k = (h.0, All-append P xs ys h.1 k)

  All-filter {κ} :
      (P : A → Type κ) (keep : A → Bool) (xs : List A) → All P xs → All P (filter keep xs)
  All-filter P keep [] h = h
  All-filter P keep (x ∷ xs) h = go (keep x) (All-filter P keep xs h.1)
    where
      go :
          (b : Bool)
          → All P (filter keep xs)
          → All P (if b then x ∷ filter keep xs else filter keep xs)
      go true rest = (h.0, rest)
      go false rest = rest

  All-take {κ} : (P : A → Type κ) (n : ℕ) (xs : List A) → All P xs → All P (take n xs)
  All-take P zero xs h = tt
  All-take P (suc n) [] h = tt
  All-take P (suc n) (x ∷ xs) h = (h.0, All-take P n xs h.1)

  All-map_of {κ μ} :
      (P : A → Type κ) (Q : A → Type μ) (xs : List A) → ((x : A) → P x → Q x) → All P xs → All Q xs
  All-map_of P Q [] f h = tt
  All-map_of P Q (x ∷ xs) f h = (f x h.0, All-map_of P Q xs f h.1)

-- `x in xs` on names
abbrev pub contains : ℕ → List ℕ → Bool
contains a [] = false
contains a (x ∷ xs) = a == x || contains a xs

pub contains-append :
    (a : ℕ) (xs ys : List ℕ) → contains a (xs ++ ys) ≡ (contains a xs || contains a ys)
contains-append a [] ys = refl
contains-append a (x ∷ xs) ys = ground (arith, contains-append a xs ys)

-- `len(set(xs)) == len(xs)`
abbrev pub is_unique : List ℕ → Bool
is_unique [] = true
is_unique (x ∷ xs) = not (contains x xs) && is_unique xs

-- no name twice
abbrev pub Distinct : List ℕ → Type 0
Distinct [] = Unit
Distinct (x ∷ xs) = (contains x xs ≡ false) × Distinct xs

contains-take : (a n : ℕ) (xs : List ℕ) → contains a xs ≡ false → contains a (take n xs) ≡ false
contains-take a zero xs h = refl
contains-take a (suc n) [] h = refl
contains-take a (suc n) (x ∷ xs) h = ground (arith, contains-take a n xs)

pub Distinct-take : (n : ℕ) (xs : List ℕ) → Distinct xs → Distinct (take n xs)
Distinct-take zero xs h = tt
Distinct-take (suc n) [] h = tt
Distinct-take (suc n) (x ∷ xs) h = (contains-take x n xs h.0, Distinct-take n xs h.1)

-- the names in a list of records
abbrev pub names {ℓ} : {A : Type ℓ} → (A → ℕ) → List A → List ℕ
names f [] = []
names f (x ∷ xs) = f x ∷ names f xs

module _ {ℓ} {A : Type ℓ} (f : A → ℕ) where
  pub names-append : (xs ys : List A) → names f (xs ++ ys) ≡ names f xs ++ names f ys
  names-append [] ys = refl
  names-append (x ∷ xs) ys = rw (names-append xs ys)

  pub names-take : (n : ℕ) (xs : List A) → names f (take n xs) ≡ take n (names f xs)
  names-take zero xs = refl
  names-take (suc n) [] = refl
  names-take (suc n) (x ∷ xs) = rw (names-take n xs)

  pub contains-names-filter :
      (a : ℕ) (keep : ℕ → Bool) (xs : List A)
      → contains a (names f (filter (λ x. keep (f x)) xs)) ≡ (contains a (names f xs) && keep a)
  contains-names-filter a keep [] = refl
  contains-names-filter a keep (x ∷ xs) = ground (arith, contains-names-filter a keep xs)

  pub Distinct-names-filter :
      (keep : ℕ → Bool) (xs : List A)
      → Distinct (names f xs)
      → Distinct (names f (filter (λ x. keep (f x)) xs))
  Distinct-names-filter keep [] d = tt
  Distinct-names-filter keep (x ∷ xs) d =
      ground (arith, contains-names-filter (f x) keep xs, Distinct-names-filter keep xs d.1)

  pub length-names : (xs : List A) → length (names f xs) ≡ length xs
  length-names [] = refl
  length-names (x ∷ xs) = omega (arith, length-names xs)

pub contains_of_take :
    (a n : ℕ) (xs : List ℕ) → contains a (take n xs) ≡ true → contains a xs ≡ true
contains_of_take a zero xs h = cc
contains_of_take a (suc n) [] h = h
contains_of_take a (suc n) (x ∷ xs) h = ground (arith, contains_of_take a n xs)

pub Distinct-append :
    (xs ys : List ℕ)
    → Distinct xs
    → Distinct ys
    → ((a : ℕ) → contains a xs ≡ true → contains a ys ≡ false)
    → Distinct (xs ++ ys)
Distinct-append [] ys d e h = e
Distinct-append (x ∷ xs) ys d e h = (
  ground (arith, contains-append x xs ys, h x, ==_refl x),
  Distinct-append xs ys d.1 e (λ a c. h a (ground arith)),
)

-- `x` taken out, where it stands first
abbrev erase : ℕ → List ℕ → List ℕ
erase a [] = []
erase a (x ∷ xs) = if a == x then xs else x ∷ erase a xs

length-erase : (a : ℕ) (xs : List ℕ) → contains a xs ≡ true → length xs ≡ suc (length (erase a xs))
length-erase a [] h = cc
length-erase a (x ∷ xs) h = ground (arith, length-erase a xs)

contains-erase :
    (a b : ℕ) (xs : List ℕ)
    → Distinct xs
    → contains b (erase a xs) ≡ (contains b xs && not (b == a))
contains-erase a b [] d = refl
contains-erase a b (x ∷ xs) d = ground (arith, contains-erase a b xs d.1)

Distinct-erase : (a : ℕ) (xs : List ℕ) → Distinct xs → Distinct (erase a xs)
Distinct-erase a [] d = tt
Distinct-erase a (x ∷ xs) d = ground (arith, contains-erase a x xs d.1, Distinct-erase a xs d.1)

-- Two lists without repetition that hold the same names are of one length.
pub length_same :
    (xs ys : List ℕ)
    → Distinct xs
    → Distinct ys
    → ((a : ℕ) → contains a xs ≡ contains a ys)
    → length xs ≡ length ys
length_same [] [] d e h = refl
length_same [] (y ∷ ys) d e h = ground (arith, h y, ==_refl y)
length_same (x ∷ xs) ys d e h =
    let here : contains x ys ≡ true = ground (arith, h x, ==_refl x) in
    let ih : length xs ≡ length (erase x ys) =
      length_same xs (erase x ys) d.1 (Distinct-erase x ys e)
        (λ a. ground (arith, h a, contains-erase x a ys e)) in
    omega (arith, length-erase x ys here)
