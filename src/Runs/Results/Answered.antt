-- ===== src/Runs/Results/Answered.antt =====
-- Results and answers are stored once (src/ragops/evaluation/repository.py).
mod Tests
use rag_eval_platform.Prelude.{
  ℕ, ◌==◌, ◌&&◌, ◌+◌, ◌≤◌, ◌<◌, ◌≡◌, refl, sym, ap, ◌∙◌, ◌⊎◌, inl, inr, Bool, true, false, Option,
  none, some, List, [], ◌∷◌, ◌++◌, arith, ltb, is_some, if◌then◌else◌, Bool-cases, Option-cases, ok,
  err, value_error, key_error,
}
use rag_eval_platform.Prelude.Dict.{Dict, lookup, insert, lookup-insert}
use rag_eval_platform.Runs.Store.{Database, EvalRunRow, EvalQueryResultRow, find_run, update_run}
use rag_eval_platform.Runs.Results.{
  is_result_of, find_result, result_count, add_result, merged, with_answer, update_result,
  update_answer,
}
use rag_eval_platform.Generation.{AnswerResponse}

some_same : (x y : EvalQueryResultRow) → some x ≡ some y → x ≡ y
some_same x y e = cc

module _ (i v q : ℕ) (f : EvalQueryResultRow → EvalQueryResultRow) (r : EvalQueryResultRow) where
  -- an UPDATE of the first result with the key, by a change that keeps the key
  pub find_result-update_result :
      (rows : List EvalQueryResultRow)
      → is_result_of i v q (f r) ≡ true
      → find_result i v q rows ≡ some r
      → find_result i v q (update_result i v q f rows) ≡ some (f r)
  find_result-update_result [] k h = cc
  find_result-update_result (x ∷ rows) k h =
      go (is_result_of i v q x) refl h (find_result-update_result rows k)
    where
      go :
          (b : Bool)
          → is_result_of i v q x ≡ b
          → (if b then some x else find_result i v q rows) ≡ some r
          → (find_result i v q rows ≡ some r
              → find_result i v q (update_result i v q f rows) ≡ some (f r))
          → find_result i v q (if b then f x ∷ rows else x ∷ update_result i v q f rows)
            ≡ some (f r)
      go true e h ih =
          let same : x ≡ r = some_same x r h in
          ap (λ (y : EvalQueryResultRow). find_result i v q (f y ∷ rows)) same ∙ rw k refl
      go false e h ih = rw e (ih h)

  -- a change that keeps the row it finds
  pub update_result-same :
      (rows : List EvalQueryResultRow)
      → find_result i v q rows ≡ some r
      → f r ≡ r
      → update_result i v q f rows ≡ rows
  update_result-same [] h k = refl
  update_result-same (x ∷ rows) h k = go (is_result_of i v q x) h (λ g. update_result-same rows g k)
    where
      go :
          (b : Bool)
          → (if b then some x else find_result i v q rows) ≡ some r
          → (find_result i v q rows ≡ some r → update_result i v q f rows ≡ rows)
          → (if b then f x ∷ rows else x ∷ update_result i v q f rows) ≡ x ∷ rows
      go true h ih =
          let same : x ≡ r = some_same x r h in
          ap (λ (y : EvalQueryResultRow). y ∷ rows) (ap f same ∙ k ∙ sym same)
      go false h ih = ap (λ (t : List EvalQueryResultRow). x ∷ t) (ih h)

-- an UPDATE leaves the results under other keys alone
module _ (i v q j u p : ℕ) (other : (j == i && (u == v && p == q)) ≡ false)
    (f : EvalQueryResultRow → EvalQueryResultRow)
    (keeps : (a b c : ℕ) (x : EvalQueryResultRow)
      → is_result_of a b c (f x) ≡ is_result_of a b c x) where
  foreign : (x : EvalQueryResultRow) → is_result_of i v q x ≡ true → is_result_of j u p x ≡ false
  foreign x h = ground (arith, h, other)

  pub find_result-other :
      (rows : List EvalQueryResultRow)
      → find_result j u p (update_result i v q f rows) ≡ find_result j u p rows
  find_result-other [] = refl
  find_result-other (x ∷ rows) = elim (Bool-cases (is_result_of i v q x)) [
    | inl h ↦ rw (h, keeps j u p x, foreign x h) refl
    | inr h ↦ rw (h, find_result-other rows) refl
  ]

pub find_result-key :
    (i v q : ℕ) (r : EvalQueryResultRow) (rows : List EvalQueryResultRow)
    → find_result i v q rows ≡ some r
    → is_result_of i v q r ≡ true
find_result-key i v q r [] h = cc
find_result-key i v q r (x ∷ rows) h = ground (arith, find_result-key i v q r rows)

with_answer-key :
    (i v q : ℕ) (answer : AnswerResponse) (scores : Dict ℕ) (gold : Option ℕ)
    (r : EvalQueryResultRow)
    → is_result_of i v q (with_answer answer scores gold r) ≡ is_result_of i v q r
with_answer-key i v q answer scores gold r = elim (Option-cases r.generation_record) [
  | inl e ↦ rw e refl
  | inr (a, e) ↦ rw e refl
]

with_answer-answered :
    (answer again : AnswerResponse) (scores scores' : Dict ℕ) (gold gold' : Option ℕ)
    (r : EvalQueryResultRow)
    → with_answer again scores' gold' (with_answer answer scores gold r)
      ≡ with_answer answer scores gold r
with_answer-answered answer again scores scores' gold gold' r =
    elim (Option-cases r.generation_record) [ inl e ↦ rw e refl | inr (a, e) ↦ rw e refl ]

-- the value that a key has last in `new`, else the one that it had
abbrev pub last_of : ℕ → Dict ℕ → Option ℕ → Option ℕ
last_of k [] old = old
last_of k ((j, s) ∷ new) old = last_of k new (if k == j then some s else old)

lookup-merged :
    (k : ℕ) (new old : Dict ℕ) → lookup k (merged old new) ≡ last_of k new (lookup k old)
lookup-merged k [] old = refl
lookup-merged k ((j, s) ∷ new) old =
    lookup-merged k new (insert j s old) ∙ ap (last_of k new) (lookup-insert k j s old)

-- What becomes of a result that is given an answer: one that has an answer stays as it is, any other
-- takes the answer with its scores, its label and its cost, and keeps the rest.
abbrev pub TakesAnswer :
    AnswerResponse → Dict ℕ → Option ℕ → EvalQueryResultRow → EvalQueryResultRow → Type 0
TakesAnswer answer scores gold old new =
    (is_some old.generation_record ≡ true → new ≡ old)
    × (old.generation_record ≡ none
        → (new.generation_record ≡ some answer)
          × (new.scifact_gold_label ≡ gold)
          × (new.token_cost_usd ≡ old.token_cost_usd + answer.usage.cost_usd)
          × ((k : ℕ)
              → lookup k new.deterministic_scores
                ≡ last_of k scores (lookup k old.deterministic_scores))
          × (new.ranked_document_ids ≡ old.ranked_document_ids)
          × (new.judge_scores ≡ old.judge_scores)
          × (new.judge_records ≡ old.judge_records))

with_answer-TakesAnswer :
    (answer : AnswerResponse) (scores : Dict ℕ) (gold : Option ℕ) (r : EvalQueryResultRow)
    → TakesAnswer answer scores gold r (with_answer answer scores gold r)
with_answer-TakesAnswer answer scores gold r = (
  λ h. rw h refl,
  λ h.
      rw h (refl, refl, refl, λ k. lookup-merged k scores r.deterministic_scores, refl, refl, refl),
)

update_answer-found :
    (i q v : ℕ) (answer : AnswerResponse) (scores : Dict ℕ) (gold : Option ℕ) (db : Database)
    (r : EvalQueryResultRow)
    → find_result i v q db.results ≡ some r
    → update_answer i q v answer scores gold db ≡ (
      ok tt,
      record db { results = update_result i v q (with_answer answer scores gold) db.results },
    )
unfolding update_answer
update_answer-found i q v answer scores gold db r e = rw (e, update_answer) refl

update_answer-missing :
    (i q v : ℕ) (answer : AnswerResponse) (scores : Dict ℕ) (gold : Option ℕ) (db : Database)
    → find_result i v q db.results ≡ none
    → update_answer i q v answer scores gold db ≡ (err key_error, db)
unfolding update_answer
update_answer-missing i q v answer scores gold db e = rw (e, update_answer) refl

-- The first answer wins: where the result is there, an update of its answer succeeds. A result without
-- an answer takes this one with its scores, its label and its cost, and one that has an answer
-- stays as it is; no other result, and nothing else, changes. A second update, whatever it holds,
-- succeeds and changes nothing, so that the cost of an answer is added once. Where the result is not
-- there, an update raises a KeyError and changes nothing.
pub update_answer_twice :
    (i q v : ℕ) (answer again : AnswerResponse) (scores scores' : Dict ℕ) (gold gold' : Option ℕ)
    (db : Database)
    → ((find_result i v q db.results ≡ none)
        × (update_answer i q v answer scores gold db ≡ (err key_error, db)))
      ⊎ ((old : EvalQueryResultRow) × ((new : EvalQueryResultRow) × ((rows : List
                EvalQueryResultRow)
              × (find_result i v q db.results ≡ some old)
              × (update_answer i q v answer scores gold db ≡ (ok tt, record db { results = rows }))
              × (find_result i v q rows ≡ some new)
              × TakesAnswer answer scores gold old new
              × ((j u p : ℕ)
                  → (j == i && (u == v && p == q)) ≡ false
                  → find_result j u p rows ≡ find_result j u p db.results)
              × (update_answer i q v again scores' gold' (record db { results = rows })
                  ≡ (ok tt, record db { results = rows })))))
update_answer_twice i q v answer again scores scores' gold gold' db =
    elim (Option-cases (find_result i v q db.results)) [
      | inl e ↦ inl (e, update_answer-missing i q v answer scores gold db e)
      | inr (r, e) ↦
          let f : EvalQueryResultRow → EvalQueryResultRow = with_answer answer scores gold in
          let rows : List EvalQueryResultRow = update_result i v q f db.results in
          let found : find_result i v q rows ≡ some (f r) =
            find_result-update_result i v q f r db.results
              (with_answer-key i v q answer scores gold r ∙ find_result-key i v q r db.results e)
              e in
          inr (
            r,
            (
              f r,
              (
                rows,
                e,
                update_answer-found i q v answer scores gold db r e,
                found,
                with_answer-TakesAnswer answer scores gold r,
                λ j u p other.
                    find_result-other i v q j u p other f
                      (λ a b c x. with_answer-key a b c answer scores gold x) db.results,
                update_answer-found i q v again scores' gold' (record db { results = rows }) (f r)
                      found
                    ∙ ap (λ (t : List EvalQueryResultRow). (ok tt, record db { results = t }))
                        (update_result-same i v q (with_answer again scores' gold') (f r) rows found
                          (with_answer-answered answer again scores scores' gold gold' r)),
              ),
            ),
          )
    ]

-- The contract of `add_result`, on every branch: a result whose key is taken changes nothing; a result
-- of an unknown run, or one more than the total of the run, raises; any other is stored, and the
-- progress of its run becomes the number of the run's results.
pub add_result_lem :
    (row : EvalQueryResultRow) (db : Database)
    → let rows : List EvalQueryResultRow = db.results ++ row ∷ [] in
      let count : ℕ = result_count row.eval_run_id rows in
      ((old : EvalQueryResultRow) × (find_result row.eval_run_id row.variant row.query_id db.results
          ≡ some old)
        × (add_result row db ≡ (ok false, db)))
      ⊎ ((find_result row.eval_run_id row.variant row.query_id db.results ≡ none)
          × (((find_run row.eval_run_id db.runs ≡ none) × ((add_result row db).0 ≡ err key_error))
              ⊎ ((run : EvalRunRow) × (find_run row.eval_run_id db.runs ≡ some run)
                  × (((run.total_queries < count) × ((add_result row db).0 ≡ err value_error))
                      ⊎ ((count ≤ run.total_queries)
                          × (add_result row db ≡ (
                            ok true,
                            record db {
                              runs =
                                  update_run run.id
                                    (record run { completed_queries = count })
                                    db.runs;
                              results = rows;
                            },
                          )))))))
unfolding add_result
add_result_lem row db =
    elim (Option-cases (find_result row.eval_run_id row.variant row.query_id db.results)) [
      | inr (old, e) ↦ inl (old, e, rw e refl)
      | inl e ↦ inr (
        e,
        elim (Option-cases (find_run row.eval_run_id db.runs)) [
          | inl f ↦ inl (f, rw (e, f) refl)
          | inr (run, f) ↦ inr (
            run,
            f,
            elim (Bool-cases
                (ltb run.total_queries (result_count row.eval_run_id (db.results ++ row ∷ [])))) [
                  | inl g ↦ inl (ground arith, rw (e, f, g) refl)
                  | inr g ↦ inr (ground arith, rw (e, f, g) refl)
                ],
          )
        ],
      )
    ]
