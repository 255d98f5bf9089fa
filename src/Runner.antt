-- ===== src/Runner.antt =====
-- The runner of evaluations: src/ragops/evaluation/runner.py. The runner works in short database
-- transactions; what other processes commit before each of them and before each call of a service,
-- and the clock, come as the turns of the world it runs in. A service may answer otherwise at
-- another time. The tables of datasets do not change during a run, and cancellation of the task
-- itself, which is no `Exception`, is left out.
pub mod Selection
mod Tests
pub mod Retrieving
pub mod Answering
pub mod Execution
pub mod Running
pub mod Triples
pub mod Facts
pub mod Rules
pub mod Progress
pub mod Loops
pub mod Queries
pub mod Rounds
pub mod Stages
pub mod Retrieved
pub mod Later
pub mod Whole
pub mod Start
pub mod Failing
pub mod Ending
use rag_eval_platform.Prelude.{
  ℕ, Bool, Option, some, List, [], ◌∷◌, if◌then◌else◌, Result, ok, Exec, pure, transaction, ◌>>=◌,
  ◌>>◌, ℤ, pos, Error,
}
use rag_eval_platform.Prelude.Text.{Text}
use rag_eval_platform.Prelude.Dict.{Dict}
use rag_eval_platform.Runs.{EvalRunState, failed, cancelled, same_state, state_in, finished_states}
use rag_eval_platform.Runs.Store.{
  JudgeVerdict, Database, Session, EvalRunRow, load_run, get_variant_hashes, set_state,
  set_progress,
}
use rag_eval_platform.Runs.Results.{completed_work}
use rag_eval_platform.Generation.{AnswerResponse, Passage, Raised}
use rag_eval_platform.Answers.{AnswerRequest}
use rag_eval_platform.Retrieval.{VariantConfig, SearchRequest, SearchResponse}
use rag_eval_platform.Retrieval.Pipeline.{DatasetManifest}
use rag_eval_platform.Metrics.{ScoreOps}
use rag_eval_platform.Runs.Datasets.{
  Tables, EvaluationQuery, QueryResult, load_queries, load_results,
}
use rag_eval_platform.Runs.Store.Pins.{RunOp, run}

-- the fields of a `JudgeRequest`
pub record JudgeRequest : Type 0 where
  pub query : ℕ
  pub answer : Text
  pub abstained : Bool
  pub citations : List Text
  pub contexts : List Passage
  pub system_prompt : Text
  pub user_prompt : Text
  pub prompt_version : ℕ
  pub trace_id : ℕ

-- `RetrievalEvaluationRunner.__init__`, with the digests, the orders of texts and the float
-- operations. A service takes the time of the call.
pub record EvaluationRunner : Type 0 where
  pub search : ℕ → SearchRequest → Result Error SearchResponse
  pub datasets : Dict DatasetManifest
  pub variants : Dict VariantConfig
  pub configuration_hash : VariantConfig → ℕ
  pub answer_service : Option (ℕ → AnswerRequest → Result Error AnswerResponse)
  pub judge_renderer : Option (ℕ → AnswerResponse → JudgeRequest)
  pub judges : Dict (ℕ → JudgeRequest → Result Raised JudgeVerdict)
  pub tables : Tables
  pub collates : ℕ → ℕ → Bool
  pub text_lt : ℕ → ℕ → Bool
  pub digest : ℤ → ℕ → ℕ
  pub ops : ScoreOps

-- what others commit before the runner's next step, and its time
pub record Turn : Type 0 where
  pub others : List RunOp
  pub now : ℕ

pub record World : Type 0 where
  pub db : Database
  pub now : ℕ
  pub turns : List Turn

abbrev pub Task : Type 0 → Type 0
Task A = Exec World Error A

abbrev pub after_turn : List Turn → World → World
after_turn [] w = w
after_turn (t ∷ turns) w = record { db = run t.others w.db; now = t.now; turns = turns }

-- the world when the next step is taken
abbrev pub wait : World → World
wait w = after_turn w.turns w

abbrev pub back : {A : Type 0} → World → Result Error A × Database → Result Error A × World
back w (r, db) = (r, record w { db = db })

-- `async with self._sessions.begin() as session: ...`, and a read in a session of its own
abbrev in_session : {A : Type 0} → (ℕ → Session A) → Task A
in_session m w = back w (transaction (m w.now) w.db)

unfoldable pub in_transaction : {A : Type 0} → (ℕ → Session A) → Task A
in_transaction m w = in_session m (wait w)

-- a call of a service
unfoldable pub ask : {A : Type 0} → (ℕ → Result Error A) → Task A
ask f w = (f (wait w).now, wait w)

abbrev pub lift : {A : Type 0} → Result Error A → Task A
lift r w = (r, w)

abbrev pub get_run : ℕ → Task EvalRunRow
get_run run_id = in_transaction (λ now. load_run run_id)

abbrev pub enter_state : ℕ → EvalRunState → Task EvalRunRow
enter_state run_id state = in_transaction (λ now. set_state now run_id state)

abbrev pub enter_progress : ℕ → ℕ → ℕ → Task EvalRunRow
enter_progress run_id done total =
    in_transaction (λ now. set_progress run_id (pos done) (pos total))

abbrev pub variant_hashes : ℕ → Task (Dict ℕ)
variant_hashes run_id =
    in_transaction (λ now (db : Database). (ok (get_variant_hashes run_id db.run_variants), db))

abbrev pub work_done : ℕ → Task (List (ℕ × ℕ))
work_done run_id =
    in_transaction (λ now (db : Database). (ok (completed_work run_id db.results), db))

abbrev pub results_of : EvaluationRunner → ℕ → Task (List QueryResult)
results_of e run_id =
    in_transaction
      (λ now (db : Database). (ok (load_results e.collates e.tables run_id db.results), db))

-- `_load_queries`
abbrev pub queries_for : EvaluationRunner → ℕ → ℕ → ℕ → Task (List EvaluationQuery)
queries_for e name version split =
    in_transaction
      (λ now (db : Database). (load_queries e.collates e.tables name version split, db))

-- `_mark_failed`
abbrev pub fail_unless : ℕ → EvalRunRow → Task Unit
fail_unless run_id row =
    if state_in row.state finished_states then pure tt else enter_state run_id failed >> pure tt

unfoldable pub mark_failed : ℕ → Task Unit
unfolding in_transaction
mark_failed run_id = get_run run_id >>= fail_unless run_id

-- `if current.state is CANCELLED: return current`
abbrev pub unless_cancelled : EvalRunRow → Task (Option EvalRunRow) → Task (Option EvalRunRow)
unless_cancelled current rest =
    if same_state current.state cancelled then pure (some current) else rest
