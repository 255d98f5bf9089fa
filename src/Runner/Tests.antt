-- ===== src/Runner/Tests.antt =====
-- The selection of queries: instances.
use rag_eval_platform.Prelude.{
  ℕ, ◌-◌, ◌≡◌, refl, some, List, [], ◌∷◌, arith, ltb, ok, err, ℤ, pos, value_error,
}
use rag_eval_platform.Prelude.Sort.{sort}
use mathlib.Core.List.{Permᴰ}
use rag_eval_platform.Runs.Datasets.{EvaluationQuery}
use rag_eval_platform.Runner.Selection.{select_evaluation_queries, IsOrder, select-perm}

abbrev query : ℕ → EvaluationQuery
query n = record { id = n; external_id = n; text = 1; qrels = []; metadata = [] }

numbers-IsOrder : IsOrder ltb
numbers-IsOrder = record {
  asymm = λ x y h. ground (arith, h);
  weak = λ x y z h k. ground (arith, h, k);
  linear = λ x y h k. ground (arith, h, k);
}

-- a digest by which the sample takes the larger ids first
abbrev digest : ℤ → ℕ → ℕ
digest seed n = 10 - n

abbrev queries : List EvaluationQuery
queries = query 1 ∷ query 2 ∷ query 3 ∷ []

abbrev reordered : List EvaluationQuery
reordered = query 2 ∷ query 1 ∷ query 3 ∷ []

sampled :
    select_evaluation_queries ltb digest queries (some 2) (pos 0) ≡ ok (query 2 ∷ query 3 ∷ [])
unfolding select_evaluation_queries sort
sampled = refl

too_many : select_evaluation_queries ltb digest queries (some 4) (pos 0) ≡ err value_error
unfolding select_evaluation_queries sort
too_many = refl

select-perm_example :
    select_evaluation_queries ltb digest queries (some 2) (pos 0)
    ≡ select_evaluation_queries ltb digest reordered (some 2) (pos 0)
select-perm_example =
    select-perm ltb digest numbers-IsOrder queries reordered (some 2) (pos 0) (Permᴰ.swap refl refl)
      (refl, (refl, (refl, tt)))
