-- ===== src/Runs/Results.antt =====
-- The results of evaluation runs (src/ragops/evaluation/repository.py). The foreign keys of the tables
-- and the dialects of the insert are left out: a database that enforces the foreign keys raises its own
-- error for a result of an unknown run, where `add_result` here raises the KeyError of the code.
pub mod Answered
pub mod Verdicts
pub mod Judged
use rag_eval_platform.Prelude.{
  ℕ, ◌+◌, ◌*◌, Bool, true, false, ◌&&◌, Option, none, some, List, [], ◌∷◌, ◌++◌, ltb, ◌==◌, is_some,
  if◌then◌else◌, length, filter, ok, err, value_error, key_error,
}
use rag_eval_platform.Prelude.Dict.{Dict, lookup, insert}
use rag_eval_platform.Generation.{AnswerResponse}
use rag_eval_platform.Runs.Store.{
  JudgeVerdict, Session, EvalRunRow, EvalQueryResultRow, find_run, update_run,
}

-- the unique key `(eval_run_id, variant, query_id)`
abbrev pub is_result_of : ℕ → ℕ → ℕ → EvalQueryResultRow → Bool
is_result_of run_id variant query_id r =
    r.eval_run_id == run_id && (r.variant == variant && r.query_id == query_id)

abbrev pub find_result : ℕ → ℕ → ℕ → List EvalQueryResultRow → Option EvalQueryResultRow
find_result run_id variant query_id [] = none
find_result run_id variant query_id (r ∷ rows) =
    if is_result_of run_id variant query_id r
    then some r
    else find_result run_id variant query_id rows

-- the number of results of a run
unfoldable pub result_count : ℕ → List EvalQueryResultRow → ℕ
result_count run_id rows = length (filter (λ r. r.eval_run_id == run_id) rows)

-- `completed_work`: the pairs of query and variant
abbrev pub completed_work : ℕ → List EvalQueryResultRow → List (ℕ × ℕ)
completed_work run_id [] = []
completed_work run_id (r ∷ rows) =
    let rest = completed_work run_id rows in
    if r.eval_run_id == run_id then (r.query_id, r.variant) ∷ rest else rest

-- after the insert: the progress of the run becomes the number of its results
abbrev pub count_result : ℕ → Option EvalRunRow → Session Bool
count_result done none db = (err key_error, db)
count_result done (some run) db = if ltb run.total_queries done then (err value_error, db) else (
  ok true,
  record db { runs = update_run run.id (record run { completed_queries = done }) db.runs },
)

-- on_conflict_do_nothing: nothing is inserted where the key is taken
abbrev pub insert_result : EvalQueryResultRow → Option EvalQueryResultRow → Session Bool
insert_result row (some old) db = (ok false, db)
insert_result row none db =
    let rows : List EvalQueryResultRow = db.results ++ row ∷ [] in
    count_result (result_count row.eval_run_id rows) (find_run row.eval_run_id db.runs)
      (record db { results = rows })

unfoldable pub add_result : EvalQueryResultRow → Session Bool
unfolding result_count
add_result row db =
    insert_result row (find_result row.eval_run_id row.variant row.query_id db.results) db

-- `{**old, **new}`
abbrev pub merged : Dict ℕ → Dict ℕ → Dict ℕ
merged old [] = old
merged old ((k, v) ∷ new) = merged (insert k v old) new

-- the first answer of a result is kept
abbrev pub with_answer :
    AnswerResponse → Dict ℕ → Option ℕ → EvalQueryResultRow → EvalQueryResultRow
with_answer answer scores gold r = if is_some r.generation_record then r else record r {
  generation_record = some answer;
  deterministic_scores = merged r.deterministic_scores scores;
  scifact_gold_label = gold;
  token_cost_usd = r.token_cost_usd + answer.usage.cost_usd;
}

abbrev pub update_result :
    ℕ
    → ℕ
    → ℕ
    → (EvalQueryResultRow → EvalQueryResultRow)
    → List EvalQueryResultRow
    → List EvalQueryResultRow
update_result run_id variant query_id f [] = []
update_result run_id variant query_id f (r ∷ rows) =
    let rest = update_result run_id variant query_id f rows in
    if is_result_of run_id variant query_id r then f r ∷ rows else r ∷ rest

unfoldable pub update_answer : ℕ → ℕ → ℕ → AnswerResponse → Dict ℕ → Option ℕ → Session Unit
update_answer run_id query_id variant answer scores gold db =
    elim (find_result run_id variant query_id db.results) [
      | none ↦ (err key_error, db)
      | some r ↦ (
        ok tt,
        record db {
          results =
              update_result run_id variant query_id (with_answer answer scores gold) db.results;
        },
      )
    ]

-- the key f"{profile}.faithfulness", and f"{profile}.relevance"
abbrev pub faithfulness_key : ℕ → ℕ
faithfulness_key profile = profile * 2

abbrev pub relevance_key : ℕ → ℕ
relevance_key profile = profile * 2 + 1

-- one round of the loop of `update_judges`: a profile that has judged is skipped
abbrev pub with_verdict : ℕ → JudgeVerdict → EvalQueryResultRow → EvalQueryResultRow
with_verdict profile verdict r = if is_some (lookup profile r.judge_records) then r else record r {
  judge_records = insert profile verdict r.judge_records;
  judge_scores =
      insert (relevance_key profile) verdict.relevance
        (insert (faithfulness_key profile) verdict.faithfulness r.judge_scores);
  token_cost_usd = r.token_cost_usd + verdict.usage.cost_usd;
}

unfoldable pub with_verdicts : Dict JudgeVerdict → EvalQueryResultRow → EvalQueryResultRow
with_verdicts [] r = r
with_verdicts ((profile, verdict) ∷ verdicts) r =
    with_verdicts verdicts (with_verdict profile verdict r)

unfoldable pub update_judges : ℕ → ℕ → ℕ → Dict JudgeVerdict → Session Unit
unfolding with_verdicts
update_judges run_id query_id variant verdicts db =
    elim (find_result run_id variant query_id db.results) [
      | none ↦ (err key_error, db)
      | some r ↦ (
        ok tt,
        record db {
          results = update_result run_id variant query_id (with_verdicts verdicts) db.results;
        },
      )
    ]
