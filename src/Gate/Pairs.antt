-- ===== src/Gate/Pairs.antt =====
-- The pairs of variants and metrics that the gate runs through (src/ragops/evaluation/gate.py).
use rag_eval_platform.Prelude.{
  ℕ, ◌≡◌, refl, sym, ap, ◌∙◌, inl, inr, Bool, true, false, ◌||◌, List, [], ◌∷◌, ◌++◌, arith, ltb,
  ◌==◌, Bool-cases, contains, ==_refl, names,
}
use rag_eval_platform.Prelude.Dict.{keys}
use rag_eval_platform.Prelude.Sort.{contains-sort}
use rag_eval_platform.Gate.{BaselineDocument, sorted, scores_of, with_variant, gated_pairs}

-- some pair of the loops has the property
unfoldable pub some_pair : (ℕ → ℕ → Bool) → List (ℕ × ℕ) → Bool
some_pair test [] = false
some_pair test ((v, m) ∷ pairs) = test v m || some_pair test pairs

some_pair-append :
    (test : ℕ → ℕ → Bool) (xs ys : List (ℕ × ℕ))
    → some_pair test (xs ++ ys) ≡ (some_pair test xs || some_pair test ys)
unfolding some_pair
some_pair-append test [] ys = refl
some_pair-append test (x ∷ xs) ys = ground (arith, some_pair-append test xs ys)

equal_of : (m n : ℕ) → (m == n) ≡ true → m ≡ n
equal_of m n h = ground arith

some_pair-with_variant :
    (test : ℕ → ℕ → Bool) (v m : ℕ) (metrics : List ℕ)
    → contains m metrics ≡ true
    → test v m ≡ true
    → some_pair test (with_variant v metrics) ≡ true
unfolding some_pair
some_pair-with_variant test v m [] h t = cc
some_pair-with_variant test v m (n ∷ metrics) h t = elim (Bool-cases (m == n)) [
  | inl e ↦
      let found : test v n ≡ true = ap (test v) (sym (equal_of m n e)) ∙ t in ground (arith, found)
  | inr e ↦ ground (arith, some_pair-with_variant test v m metrics)
]

names_self : (xs : List ℕ) → names (λ (n : ℕ). n) xs ≡ xs
names_self [] = refl
names_self (x ∷ xs) = ap (λ (t : List ℕ). x ∷ t) (names_self xs)

pub contains-sorted : (a : ℕ) (xs : List ℕ) → contains a (sorted xs) ≡ contains a xs
contains-sorted a xs =
    ap (contains a) (sym (names_self (sorted xs)))
    ∙ contains-sort ltb (λ (n : ℕ). n) a xs
    ∙ ap (contains a) (names_self xs)

pub some_pair-gated_pairs :
    (test : ℕ → ℕ → Bool) (b : BaselineDocument) (v m : ℕ) (variants : List ℕ)
    → contains v variants ≡ true
    → contains m (keys (scores_of b v)) ≡ true
    → test v m ≡ true
    → some_pair test (gated_pairs b variants) ≡ true
unfolding gated_pairs
some_pair-gated_pairs test b v m [] h k t = cc
some_pair-gated_pairs test b v m (w ∷ variants) h k t =
    some_pair-append test (with_variant w (sorted (keys (scores_of b w)))) (gated_pairs b variants)
    ∙ elim (Bool-cases (v == w)) [
      | inl e ↦
          let same : v ≡ w = equal_of v w e in
          let here : some_pair test (with_variant w (sorted (keys (scores_of b w)))) ≡ true =
            ap (λ (u : ℕ). some_pair test (with_variant u (sorted (keys (scores_of b u)))))
              (sym same)
            ∙ some_pair-with_variant test v m (sorted (keys (scores_of b v)))
                (contains-sorted m (keys (scores_of b v)) ∙ k) t in
          rw here refl
      | inr e ↦ ground (arith, some_pair-gated_pairs test b v m variants)
    ]

found_in-with_variant :
    (test : ℕ → ℕ → Bool) (v : ℕ) (metrics : List ℕ)
    → some_pair test (with_variant v metrics) ≡ true
    → (m : ℕ) × (contains m metrics ≡ true) × (test v m ≡ true)
unfolding some_pair
found_in-with_variant test v [] h = cc
found_in-with_variant test v (n ∷ metrics) h = elim (Bool-cases (test v n)) [
  | inl t ↦ (n, ground (arith, ==_refl n), t)
  | inr t ↦
      let (m, c, found) = found_in-with_variant test v metrics (ground arith) in
      (m, ground (arith, c), found)
]

pub found_in-gated_pairs :
    (test : ℕ → ℕ → Bool) (b : BaselineDocument) (variants : List ℕ)
    → some_pair test (gated_pairs b variants) ≡ true
    → (v : ℕ) × ((m : ℕ) × (contains v variants ≡ true)
        × (contains m (keys (scores_of b v)) ≡ true)
        × (test v m ≡ true))
unfolding gated_pairs some_pair
found_in-gated_pairs test b [] h = cc
found_in-gated_pairs test b (w ∷ variants) h =
    elim (Bool-cases (some_pair test (with_variant w (sorted (keys (scores_of b w)))))) [
      | inl here ↦
          let (m, c, t) = found_in-with_variant test w (sorted (keys (scores_of b w))) here in
          (w, (m, ground (arith, ==_refl w), sym (contains-sorted m (keys (scores_of b w))) ∙ c, t))
      | inr rest ↦
          let (v, (m, c, k, t)) = found_in-gated_pairs test b variants (
            later _ _
              (sym (
                  some_pair-append test (with_variant w (sorted (keys (scores_of b w))))
                    (gated_pairs b variants))
                ∙ h)
              rest) in
          (v, (m, ground (arith, c), k, t))
    ]
  where
    later : (x y : Bool) → (x || y) ≡ true → x ≡ false → y ≡ true
    later x y h k = ground arith
