-- ===== src/Lib.antt =====
-- The RAG evaluation platform (src/ragops): a verification library of its core logic.
--
-- The platform ingests document collections, retrieves from them by configurable pipelines,
-- generates cited answers through an LLM provider, and evaluates pipelines in resumable runs that a
-- durable queue hands to workers; a gate compares a run with a committed baseline.
--
-- Files, and the code that they model:
-- - Prelude: tests, lists, dicts, integers, and the state-and-exception monad. An `Exec S E A` is a
--   method that mutates `S` and may raise an `E`; what was written before a raise stays written,
--   and `transaction` is a database transaction, which restores it.
-- - Queue: src/ragops/persistence/job_queue.py, the durable job queue. The table of jobs is a list
--   of rows; a method is an action on it, with the clock, the fresh id and the row locks of other
--   transactions as arguments. Queue/Trace takes any sequence of transactions;
--   Queue/Phases is an abstract machine of one job, and Queue/Machine the
--   refinement.
-- - Worker: src/ragops/worker.py. A round of `run_once` comes with what other processes commit
--   between the worker's own transactions and with how the handler ends; `run_forever` also with what
--   they commit before each round.
-- - Retrieval: src/ragops/contracts/retrieval.py; Retrieval/Fusion: retrieval/fusion.py, the
--   reciprocal rank fusion over any float arithmetic (`FloatOps`); Retrieval/Pipeline:
--   retrieval/pipeline.py, `RetrievalPipeline.search` with its stages. The store, the retriever, the
--   embedders and the rerankers are a record of functions (`Services`), which do not change during
--   one search; `Collected` is what a search gathers on its way.
-- - Generation: src/ragops/contracts/generation.py and generation/errors.py; Generation/Validation:
--   generation/validation.py; Generation/Providers: the decorators generation/repair.py and
--   generation/cache.py with persistence/generation_cache.py; Generation/Answerer: `CitedAnswerer` of
--   generation/service.py. A generator is a record with an action on the provider's state. The
--   prompt renderer and the digests of prompts and keys are parameters.
-- - Answers: the services of src/ragops/generation/service.py that join a search with an answerer
--   and route between such services.
-- - Runs: src/ragops/contracts/evaluation.py, the states of an evaluation run and its specification;
--   Runs/Store: persistence/repositories.py, the table of runs; Runs/Results: evaluation/repository.py,
--   the table of results. Runs/Store/Pins takes any sequence of transactions on both.
--   Runs/Store/Rows and Evolution say what it is for a row to go forward; Runs/Datasets: the tables of
--   datasets and the two joins that read them.
-- - Runner: src/ragops/evaluation/runner.py. The runner is an action on a `World`: the database, the
--   clock, and the turns of the other processes, each a list of transactions that commit before the
--   runner's next transaction or call of a service. Runner/Selection, Retrieving, Answering, Execution
--   and Running hold the code; Runner/Triples has the rules by which Facts to Ending prove things of it.
-- - Service: src/ragops/evaluation/service.py, on a `Platform` of both tables in one database.
-- - Gate: src/ragops/evaluation/gate.py, the comparison of a run with a baseline. The nested loops over
--   variants and metrics are one loop over their pairs (`gated_pairs`). Gate/Baseline: the capture of a
--   run as a baseline.
-- - Metrics: src/ragops/evaluation/retrieval_metrics.py, and Metrics/Answers: answer_metrics.py; the
--   float operations are a record (`ScoreOps`).
--
-- How the parts meet: the worker (Worker) calls the queue (Queue); the answer service (Answers) turns
-- the ranked hits of a search (Retrieval) into contexts for an answerer (Generation); the results and
-- the answers (Generation) are stored by run (Runs) as the runner (Runner) goes through the stages of a
-- run, with the scores of Metrics; the service (Service) creates runs (Runs) with their jobs (Queue); a
-- report on a run is gated (Gate).
--
-- Conventions: texts and identifiers that the code only compares and orders are natural numbers,
-- the empty text being 0; times are microseconds. Exceptions are values, without their messages.
-- Scores stand as the numbers that code finite floats in their order; costs are whole millionths of
-- the price unit. There is no fuel but that of the decimal print in Prelude/Text, which is one more
-- than the number printed; all other recursion is on lists or on the rounds of a worker.
--
-- Not modelled: the API, the command line and telemetry (I/O), the provider's HTTP client and the
-- prompt templates, BM25 and vector search, ingestion, the judges and the calibration, the building
-- of reports and the baseline files. The patterns and length bounds of single fields are left out of
-- the contracts, and so are `response_schema`, which has one value, and the times that the database
-- stamps on updates. The tables of runs and results have no foreign keys, and one insert for all
-- dialects.
pub mod Prelude
pub mod Queue
pub mod Worker
pub mod Generation
pub mod Retrieval
pub mod Answers
pub mod Runs
pub mod Gate
pub mod Metrics
pub mod Runner
pub mod Service
