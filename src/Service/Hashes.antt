-- ===== src/Service/Hashes.antt =====
-- The hashes that a run is created with: src/ragops/evaluation/service.py and
-- src/ragops/persistence/repositories.py.
use rag_eval_platform.Prelude.{
  ℕ, ◌≡◌, refl, sym, ap, ◌∙◌, inl, inr, Bool, true, false, not, Option, none, some, List, [], ◌∷◌,
  ◌++◌, arith, ◌==◌, if◌then◌else◌, Bool-cases, all, contains, ==_refl, Result, ok, err, Error,
  value_error,
}
use rag_eval_platform.Prelude.Dict.{Dict, lookup, lookup_or, keys, lookup-found}
use rag_eval_platform.Runs.{EvalRunSpec}
use rag_eval_platform.Runs.Store.{
  Database, EvalRunRow, EvalRunVariantRow, variant_rows, create, get_variant_hashes,
}
use rag_eval_platform.Retrieval.{VariantConfig}
use rag_eval_platform.Retrieval.Pipeline.{DatasetManifest}
use rag_eval_platform.Service.{
  EvaluationService, add_hash, hashes_of, resolve_in, resolve_variant_hashes,
}

-- the pinned hashes of a run
hashes-append :
    (i : ℕ) (rows more : List EvalRunVariantRow)
    → get_variant_hashes i (rows ++ more) ≡ get_variant_hashes i rows ++ get_variant_hashes i more
hashes-append i [] more = refl
hashes-append i (r ∷ rows) more = ground (arith, hashes-append i rows more)

hashes-variant_rows :
    (i v : ℕ) (hashes : Dict ℕ) (variants : List ℕ)
    → contains v variants ≡ true
    → lookup v (get_variant_hashes i (variant_rows i hashes variants)) ≡ some (lookup_or v 0 hashes)
hashes-variant_rows i v hashes [] h = cc
hashes-variant_rows i v hashes (u ∷ variants) h = rw (==_refl i) (elim (Bool-cases (v == u)) [
  | inl k ↦
      let same : v ≡ u = ground (arith, k) in
      rw k (ap (λ (n : ℕ). some (lookup_or n 0 hashes)) (sym same))
  | inr k ↦ rw k (hashes-variant_rows i v hashes variants (ground (arith, h, k)))
])

all_at :
    (v : ℕ) (test : ℕ → Bool) (xs : List ℕ)
    → all test xs ≡ true
    → contains v xs ≡ true
    → test v ≡ true
all_at v test [] a h = cc
all_at v test (x ∷ xs) a h = elim (Bool-cases (v == x)) [
  | inl k ↦ let same : v ≡ x = ground (arith, k) in ap test same ∙ ground (arith, a)
  | inr k ↦ all_at v test xs (ground (arith, a)) (ground (arith, h, k))
]

known_key : (v : ℕ) (d : Dict ℕ) → contains v (keys d) ≡ true → some (lookup_or v 0 d) ≡ lookup v d
known_key v d h = let (w, e) = lookup-found v d h in rw (e, lookup_or) refl

-- The hashes that a run is created with come back: once `create` has returned for an id without pinned
-- hashes, `get_variant_hashes` has, for each variant of the specification, the hash that was given.
pub get_variant_hashes-create :
    (i stamp : ℕ) (spec : EvalRunSpec) (hashes : Dict ℕ) (git digest : Option ℕ) (db db' : Database)
    (row : EvalRunRow)
    → get_variant_hashes i db.run_variants ≡ []
    → create i stamp spec hashes git digest db ≡ (ok row, db')
    → (v : ℕ) → contains v spec.variants ≡ true
    → lookup v (get_variant_hashes i db'.run_variants) ≡ lookup v hashes
unfolding create
get_variant_hashes-create i stamp spec hashes git digest db db' row none_yet h v there =
    elim (Bool-cases (all (λ v. contains v (keys hashes)) spec.variants)) [
      | inl a ↦
          ap (λ (d : List EvalRunVariantRow). lookup v (get_variant_hashes i d)) (sym (stored a))
          ∙ ap (λ (d : Dict ℕ). lookup v d)
              (hashes-append i db.run_variants (variant_rows i hashes spec.variants)
                ∙ ap
                    (λ (d : Dict ℕ).
                      d ++ get_variant_hashes i (variant_rows i hashes spec.variants))
                    none_yet)
          ∙ hashes-variant_rows i v hashes spec.variants there
          ∙ known_key v hashes (all_at v (λ v. contains v (keys hashes)) spec.variants a there)
      | inr a ↦ absurd (refused a)
    ]
  where
    stored :
        all (λ v. contains v (keys hashes)) spec.variants ≡ true
        → db.run_variants ++ variant_rows i hashes spec.variants ≡ db'.run_variants
    stored a = ap (λ p. p.1.run_variants) (rw a at h)

    refused : all (λ v. contains v (keys hashes)) spec.variants ≡ false → ⊥
    refused a = cc (rw a at h)

module _ (s : EvaluationService) where
  keys-hashes_of :
      (variants : List ℕ) (hashes : Dict ℕ)
      → hashes_of s variants ≡ ok hashes
      → keys hashes ≡ variants
  keys-hashes_of [] hashes h = ap keys (sym (same h))
    where
      same : ◌≡◌ {A = Result Error (Dict ℕ)} (ok []) (ok hashes) → [] ≡ hashes
      same h = cc
  keys-hashes_of (v ∷ variants) hashes h =
      go (lookup v s.variants) (hashes_of s variants) (keys-hashes_of variants) h
    where
      go :
          (c : Option VariantConfig) (rest : Result Error (Dict ℕ))
          → ((d : Dict ℕ) → rest ≡ ok d → keys d ≡ variants)
          → add_hash s v c rest ≡ ok hashes
          → keys hashes ≡ v ∷ variants
      go none rest ih h = cc
      go (some c) (err x) ih h = cc
      go (some c) (ok d) ih h =
          let same : (v, s.configuration_hash c) ∷ d ≡ hashes = cc (h) in
          ap keys (sym same) ∙ ap (λ (t : List ℕ). v ∷ t) (ih d refl)

  -- the resolved hashes cover the variants
  pub covers :
      (spec : EvalRunSpec) (hashes : Dict ℕ)
      → resolve_variant_hashes s spec ≡ ok hashes
      → all (λ v. contains v (keys hashes)) spec.variants ≡ true
  unfolding resolve_variant_hashes
  covers spec hashes h = go (lookup spec.dataset s.datasets) h
    where
      within :
          (more xs ys : List ℕ)
          → ((v : ℕ) → contains v xs ≡ true → contains v ys ≡ true)
          → all (λ v. contains v ys) xs ≡ true
      within more [] ys h = refl
      within more (x ∷ xs) ys h =
          rw (h x (ground (arith, ==_refl x))) (within more xs ys (λ v k. h v (ground (arith, k))))

      checked :
          (b : Bool)
          → (if b then err value_error else hashes_of s spec.variants) ≡ ok hashes
          → all (λ v. contains v (keys hashes)) spec.variants ≡ true
      checked true h = cc
      checked false h =
          within [] spec.variants (keys hashes)
            (λ v k. ap (contains v) (keys-hashes_of spec.variants hashes h) ∙ k)

      go :
          (m : Option DatasetManifest)
          → resolve_in s spec m ≡ ok hashes
          → all (λ v. contains v (keys hashes)) spec.variants ≡ true
      go none h = cc
      go (some m) h = checked (not (spec.split == m.default_split)) h
