-- ===== src/Runner/Selection.antt =====
-- The sample of queries: `select_evaluation_queries` of src/ragops/evaluation/runner.py.
use rag_eval_platform.Prelude.{
  ℕ, ◌≡◌, ap, Bool, true, false, ◌&&◌, ◌||◌, Option, none, some, List, ltb, ◌==◌, if◌then◌else◌,
  length, take, Distinct, names, Result, ok, err, ℤ, Error, value_error,
}
use rag_eval_platform.Prelude.Sort.{sort}
use mathlib.Core.List.{Permᴰ}
use rag_eval_platform.Prelude.Reorder.{sort-perm_eq}
use rag_eval_platform.Runs.Datasets.{EvaluationQuery}

module _ (text_lt : ℕ → ℕ → Bool) (digest : ℤ → ℕ → ℕ) where
  -- `key=lambda query: query.external_id`
  abbrev by_external_id : EvaluationQuery → EvaluationQuery → Bool
  by_external_id a b = text_lt a.external_id b.external_id

  -- `sample_key`: the digest of the seed and the id, then the id
  abbrev by_sample_key : ℤ → EvaluationQuery → EvaluationQuery → Bool
  by_sample_key seed a b =
      ltb (digest seed a.external_id) (digest seed b.external_id)
      || (digest seed a.external_id == digest seed b.external_id
          && text_lt a.external_id b.external_id)

  abbrev pub sample : ℤ → List EvaluationQuery → Option ℕ → Result Error (List EvaluationQuery)
  sample seed ordered none = ok ordered
  sample seed ordered (some size) =
      if ltb (length ordered) size
      then err value_error
      else ok (sort by_external_id (take size (sort (by_sample_key seed) ordered)))

  unfoldable pub select_evaluation_queries :
      List EvaluationQuery → Option ℕ → ℤ → Result Error (List EvaluationQuery)
  select_evaluation_queries queries sample_size seed =
      sample seed (sort by_external_id queries) sample_size

-- what the selection needs of the order of texts
pub record IsOrder (text_lt : ℕ → ℕ → Bool) : Type 0 where
  pub asymm : (x y : ℕ) → text_lt y x ≡ true → text_lt x y ≡ false
  pub weak : (x y z : ℕ) → text_lt y x ≡ false → text_lt z y ≡ false → text_lt z x ≡ false
  pub linear : (x y : ℕ) → (x == y) ≡ false → text_lt y x ≡ false → text_lt x y ≡ true

-- The selection does not depend on the order in which the queries come: on two lists of the same
-- queries, with external ids that are all different, it selects the same queries in the same order, or
-- raises on both.
pub select-perm :
    (text_lt : ℕ → ℕ → Bool) (digest : ℤ → ℕ → ℕ)
    → IsOrder text_lt
    → (queries reordered : List EvaluationQuery) (size : Option ℕ) (seed : ℤ)
    → Permᴰ queries reordered
    → Distinct (names (λ (q : EvaluationQuery). q.external_id) queries)
    → select_evaluation_queries text_lt digest queries size seed
      ≡ select_evaluation_queries text_lt digest reordered size seed
unfolding select_evaluation_queries
select-perm text_lt digest o queries reordered size seed p d =
    ap (λ ordered. sample text_lt digest seed ordered size)
      (sort-perm_eq (by_external_id text_lt digest) (λ q. q.external_id)
        (λ x y. o.asymm x.external_id y.external_id)
        (λ x y z. o.weak x.external_id y.external_id z.external_id)
        (λ x y. o.linear x.external_id y.external_id) queries reordered p d)
