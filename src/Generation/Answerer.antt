-- ===== src/Generation/Answerer.antt =====
-- `CitedAnswerer` of src/ragops/generation/service.py: it renders a prompt, generates, validates and
-- classifies one answer. The prompt renderer is a parameter.
pub mod Outcome
use rag_eval_platform.Prelude.{
  ℕ, Bool, false, not, ◌&&◌, ◌||◌, none, some, List, [], ltb, ◌==◌, if◌then◌else◌, Result, ok, err,
  Exec, Error, value_error,
}
use rag_eval_platform.Prelude.Sort.{sort}
use rag_eval_platform.Generation.{
  GenerationOutcome, outcome_ok, abstained, citation_error, low, GenerationRequest, Passage,
  GenerationResult, CitationValidation, AnswerResponse, response_is_valid, failure_outcome,
  GenerationFailure, Raised, failed, broke,
}
use rag_eval_platform.Generation.Validation.{validate_citations}
use rag_eval_platform.Generation.Providers.{
  Generator, has_provenance, rendered_prompt_hash, Digests,
}
use rag_eval_platform.Prelude.Text.{text_ltb}

-- the sort key `(retrieval_rank, local_id)`
abbrev pub passage_before : Passage → Passage → Bool
passage_before a b =
    ltb a.retrieval_rank b.retrieval_rank
    || (a.retrieval_rank == b.retrieval_rank && text_ltb a.local_id b.local_id)

abbrev pub classify : Bool → Bool → GenerationOutcome
classify valid abstains =
    if not valid then citation_error else (if abstains then abstained else outcome_ok)

-- The model validator runs on each response that is built.
abbrev checked_response : AnswerResponse → Result Error AnswerResponse
checked_response r = if response_is_valid r then ok r else err value_error

module _ {S : Type 0} (d : Digests) (g : Generator S) where
  abbrev pub failure_response :
      List Passage → GenerationRequest → GenerationFailure → AnswerResponse
  failure_response contexts request e = record {
    answer = [];
    citations = [];
    abstained = false;
    confidence = low;
    verification_label = none;
    rationale_sentences = [];
    contexts = contexts;
    usage = e.usage;
    outcome = failure_outcome e.kind;
    trace_id = request.trace_id;
    provider = g.provider;
    model = g.model;
    generator_configuration_hash = g.configuration_hash;
    prompt_version = request.prompt_version;
    rendered_prompt_hash = rendered_prompt_hash d request;
    provider_request_id = e.provider_request_id;
    cache_hit = false;
    citation_validation = none;
    error = some e.message;
  }

  abbrev pub answer_response :
      List Passage → GenerationRequest → GenerationResult → CitationValidation → AnswerResponse
  answer_response contexts request result citations = record {
    answer = result.output.answer;
    citations = result.output.citations;
    abstained = result.output.abstained;
    confidence = result.output.confidence;
    verification_label = result.output.verification_label;
    rationale_sentences = result.output.rationale_sentences;
    contexts = contexts;
    usage = result.usage;
    outcome = classify citations.valid result.output.abstained;
    trace_id = request.trace_id;
    provider = result.provider;
    model = result.model;
    generator_configuration_hash = result.generator_configuration_hash;
    prompt_version = request.prompt_version;
    rendered_prompt_hash = rendered_prompt_hash d request;
    provider_request_id = result.provider_request_id;
    cache_hit = result.cache_hit;
    citation_validation = some citations;
    error = none;
  }

  abbrev on_validated :
      List Passage
      → GenerationRequest
      → GenerationResult
      → Result Error CitationValidation
      → Result Error AnswerResponse
  on_validated contexts request result (ok citations) =
      checked_response (answer_response contexts request result citations)
  on_validated contexts request result (err e) = err e

  abbrev pub on_generated :
      List Passage
      → GenerationRequest
      → Result Raised GenerationResult × S
      → Result Error AnswerResponse × S
  on_generated contexts request (err (failed e), s) =
      (checked_response (failure_response contexts request e), s)
  on_generated contexts request (err (broke e), s) = (err e, s)
  on_generated contexts request (ok result, s) =
      if not (has_provenance d g result)
      then (err value_error, s)
      else (on_validated contexts request result (validate_citations result.output contexts), s)

  -- `CitedAnswerer.answer`, with the fresh trace id
  pub answer :
      (ℕ → List Passage → ℕ → Result Error GenerationRequest)
      → ℕ
      → ℕ
      → List Passage
      → Exec S Error AnswerResponse
  answer render trace_id query contexts s =
      let ordered : List Passage = sort passage_before contexts in
      elim (render query ordered trace_id) [
        | ok request ↦ on_generated ordered request (g.generate request s)
        | err e ↦ (err e, s)
      ]
