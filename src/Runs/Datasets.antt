-- ===== src/Runs/Datasets.antt =====
-- The tables of datasets and the queries that read them: `load_queries` and `load_results` of
-- src/ragops/evaluation/repository.py over src/ragops/persistence/models.py. The order in which the
-- database sorts texts is a parameter.
use rag_eval_platform.Prelude.{
  ℕ, Bool, not, ◌&&◌, ◌||◌, Option, none, some, List, [], ◌∷◌, ◌==◌, if◌then◌else◌, filter, Result,
  ok, err, ℤ, Error, value_error,
}
use rag_eval_platform.Prelude.Dict.{Dict, insert}
use rag_eval_platform.Prelude.Sort.{sort}
use rag_eval_platform.Runs.Store.{EvalQueryResultRow}
use rag_eval_platform.Metrics.Answers.{Evidence}

pub record DatasetRow : Type 0 where
  pub id : ℕ
  pub name : ℕ
  pub version : ℕ
  pub split : ℕ

pub record QueryRow : Type 0 where
  pub id : ℕ
  pub dataset_id : ℕ
  pub external_id : ℕ
  pub text : ℕ
  pub query_metadata : Evidence

pub record DocumentRow : Type 0 where
  pub id : ℕ
  pub external_id : ℕ

pub record QrelRow : Type 0 where
  pub query_id : ℕ
  pub document_id : ℕ
  pub relevance : ℤ

pub record Tables : Type 0 where
  pub datasets : List DatasetRow
  pub queries : List QueryRow
  pub documents : List DocumentRow
  pub qrels : List QrelRow

pub record EvaluationQuery : Type 0 where
  pub id : ℕ
  pub external_id : ℕ
  pub text : ℕ
  pub qrels : Dict ℤ
  pub metadata : Evidence

abbrev is_dataset : ℕ → ℕ → ℕ → DatasetRow → Bool
is_dataset name version split d = d.name == name && d.version == version && d.split == split

abbrev find_dataset : ℕ → ℕ → ℕ → List DatasetRow → Option DatasetRow
find_dataset name version split [] = none
find_dataset name version split (d ∷ rows) =
    if is_dataset name version split d then some d else find_dataset name version split rows

abbrev find_document : ℕ → List DocumentRow → Option DocumentRow
find_document i [] = none
find_document i (d ∷ rows) = if d.id == i then some d else find_document i rows

-- one joined row of judgments; the join drops a judgment of no document
abbrev judged_document : Option DocumentRow → ℤ → Dict ℤ → Dict ℤ
judged_document none relevance qrels = qrels
judged_document (some d) relevance qrels = insert d.external_id relevance qrels

-- the loop that fills `qrels_by_query`, for one query
abbrev qrels_by_query : Tables → ℕ → List QrelRow → Dict ℤ → Dict ℤ
qrels_by_query tables query_id [] qrels = qrels
qrels_by_query tables query_id (r ∷ rows) qrels = qrels_by_query tables query_id rows (
    if r.query_id == query_id
    then judged_document (find_document r.document_id tables.documents) r.relevance qrels
    else qrels)

abbrev query_of : Tables → QueryRow → EvaluationQuery
query_of tables q = record {
  id = q.id;
  external_id = q.external_id;
  text = q.text;
  qrels = qrels_by_query tables q.id tables.qrels [];
  metadata = q.query_metadata;
}

abbrev queries_of : Tables → List QueryRow → List EvaluationQuery
queries_of tables [] = []
queries_of tables (q ∷ rows) = query_of tables q ∷ queries_of tables rows

abbrev queries_in :
    (ℕ → ℕ → Bool) → Tables → Option DatasetRow → Result Error (List EvaluationQuery)
queries_in collates tables none = err value_error
queries_in collates tables (some d) = ok (
    queries_of tables (
      sort (λ a b. collates a.external_id b.external_id)
        (filter (λ (q : QueryRow). q.dataset_id == d.id) tables.queries)))

unfoldable pub load_queries :
    (ℕ → ℕ → Bool) → Tables → ℕ → ℕ → ℕ → Result Error (List EvaluationQuery)
load_queries collates tables name version split =
    queries_in collates tables (find_dataset name version split tables.datasets)

-- A `QueryResult` is a row of results with the external id of its query.
abbrev pub QueryResult : Type 0
QueryResult = ℕ × EvalQueryResultRow

abbrev find_query : ℕ → List QueryRow → Option QueryRow
find_query i [] = none
find_query i (q ∷ rows) = if q.id == i then some q else find_query i rows

abbrev joined_result : Option QueryRow → EvalQueryResultRow → List QueryResult → List QueryResult
joined_result none r rest = rest
joined_result (some q) r rest = (q.external_id, r) ∷ rest

abbrev joined_results : ℕ → Tables → List EvalQueryResultRow → List QueryResult
joined_results run_id tables [] = []
joined_results run_id tables (r ∷ rows) =
    let rest = joined_results run_id tables rows in
    if r.eval_run_id == run_id
    then joined_result (find_query r.query_id tables.queries) r rest
    else rest

-- `order_by(variant, external_id)`
abbrev listed_before : (ℕ → ℕ → Bool) → QueryResult → QueryResult → Bool
listed_before collates a b =
    collates a.1.variant b.1.variant || (not (collates b.1.variant a.1.variant) && collates a.0 b.0)

unfoldable pub load_results :
    (ℕ → ℕ → Bool) → Tables → ℕ → List EvalQueryResultRow → List QueryResult
load_results collates tables run_id rows =
    sort (listed_before collates) (joined_results run_id tables rows)
