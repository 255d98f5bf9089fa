-- ===== src/Generation.antt =====
-- The contracts of answer generation: src/ragops/contracts/generation.py, with the failures of
-- src/ragops/generation/errors.py. Costs are whole units of one millionth of the price unit.
pub mod Validation
pub mod Providers
pub mod Answerer
mod Tests
use rag_eval_platform.Prelude.{
  ℕ, ◌+◌, Bool, true, false, not, ◌&&◌, ◌||◌, Option, none, some, List, leb, is_some, is_nil,
  bool_eq, if◌then◌else◌, length, Error,
}
use rag_eval_platform.Prelude.Text.{Text, is_blank}

pub data GenerationOutcome : Type 0 where
  outcome_ok abstained citation_error schema_error refusal provider_error timeout :
      GenerationOutcome

pub data Confidence : Type 0 where
  low medium high : Confidence

pub data SciFactLabel : Type 0 where
  support contradict not_enough_info : SciFactLabel

pub record TokenUsage : Type 0 where
  pub input_tokens : ℕ
  pub output_tokens : ℕ
  pub cached_input_tokens : ℕ
  pub cache_write_input_tokens : ℕ
  pub cost_usd : ℕ

-- `validate_cached_input_tokens`
abbrev pub usage_is_valid : TokenUsage → Bool
usage_is_valid u = leb (u.cached_input_tokens + u.cache_write_input_tokens) u.input_tokens

-- `TokenUsage(input_tokens=0, output_tokens=0)`
abbrev pub no_usage : TokenUsage
no_usage = record {
  input_tokens = 0;
  output_tokens = 0;
  cached_input_tokens = 0;
  cache_write_input_tokens = 0;
  cost_usd = 0;
}

pub record CitedAnswer : Type 0 where
  pub answer : Text
  pub citations : List Text
  pub abstained : Bool
  pub confidence : Confidence
  pub verification_label : Option SciFactLabel
  pub rationale_sentences : List (Text × List ℕ)

-- the bounds and the validator of `answer`
abbrev pub answer_is_valid : Text → Bool
answer_is_valid t = not (is_blank t) && leb (length t) 32768

pub record GenerationRequest : Type 0 where
  pub system_prompt : Text
  pub user_prompt : Text
  pub prompt_version : ℕ
  pub trace_id : ℕ

pub record Passage : Type 0 where
  pub local_id : Text
  pub document_id : ℕ
  pub title : ℕ
  pub body : ℕ
  pub retrieval_rank : ℕ
  pub retrieval_score : ℕ

pub record GenerationResult : Type 0 where
  pub output : CitedAnswer
  pub usage : TokenUsage
  pub provider : ℕ
  pub model : ℕ
  pub generator_configuration_hash : ℕ
  pub provider_request_id : Option ℕ
  pub cache_hit : Bool

pub record CitationValidation : Type 0 where
  pub valid : Bool
  pub unknown_citations : List Text
  pub duplicate_citations : List Text
  pub missing_inline_citations : List Text
  pub missing_required_citation : Bool
  pub citations_on_abstention : Bool

abbrev has_errors : CitationValidation → Bool
has_errors v =
    not (is_nil v.unknown_citations)
    || not (is_nil v.duplicate_citations)
    || not (is_nil v.missing_inline_citations)
    || v.missing_required_citation
    || v.citations_on_abstention

-- `validate_summary`
abbrev pub report_is_valid : CitationValidation → Bool
report_is_valid v = not (bool_eq v.valid (has_errors v))

pub record AnswerResponse : Type 0 where
  pub answer : Text
  pub citations : List Text
  pub abstained : Bool
  pub confidence : Confidence
  pub verification_label : Option SciFactLabel
  pub rationale_sentences : List (Text × List ℕ)
  pub contexts : List Passage
  pub usage : TokenUsage
  pub outcome : GenerationOutcome
  pub trace_id : ℕ
  pub provider : ℕ
  pub model : ℕ
  pub generator_configuration_hash : ℕ
  pub prompt_version : ℕ
  pub rendered_prompt_hash : ℕ
  pub provider_request_id : Option ℕ
  pub cache_hit : Bool
  pub citation_validation : Option CitationValidation
  pub error : Option ℕ

abbrev pub is_generated : GenerationOutcome → Bool
is_generated outcome_ok = true
is_generated abstained = true
is_generated citation_error = true
is_generated _ = false

-- the checks of `validate_outcome` that turn on the outcome, given the citation report
abbrev pub outcome_agrees : GenerationOutcome → Bool → List Text → Bool → Bool
outcome_agrees outcome_ok abstains citations valid = not abstains && not (is_nil citations) && valid
outcome_agrees abstained abstains citations valid = abstains && is_nil citations && valid
outcome_agrees citation_error abstains citations valid = not valid
outcome_agrees _ abstains citations valid = true

abbrev report_agrees : AnswerResponse → Option CitationValidation → Bool
report_agrees r none = false
report_agrees r (some report) =
    not (is_some r.error)
    && answer_is_valid r.answer
    && outcome_agrees r.outcome r.abstained r.citations report.valid

-- `AnswerResponse.validate_outcome`
pub response_is_valid : AnswerResponse → Bool
response_is_valid r =
    if is_generated r.outcome
    then report_agrees r r.citation_validation
    else not (is_some r.citation_validation) && is_some r.error

-- `GenerationFailure`: its class gives the outcome
pub data FailureKind : Type 0 where
  schema refused provider_failed timed_out : FailureKind

abbrev pub failure_outcome : FailureKind → GenerationOutcome
failure_outcome schema = schema_error
failure_outcome refused = refusal
failure_outcome provider_failed = provider_error
failure_outcome timed_out = timeout

pub record GenerationFailure : Type 0 where
  pub kind : FailureKind
  pub message : ℕ
  pub usage : TokenUsage
  pub provider_request_id : Option ℕ

-- What a call of a generator or a judge raises.
pub data Raised : Type 0 where
  failed : GenerationFailure → Raised
  broke : Error → Raised

pub add_usage : TokenUsage → TokenUsage → TokenUsage
add_usage first second = record {
  input_tokens = first.input_tokens + second.input_tokens;
  output_tokens = first.output_tokens + second.output_tokens;
  cached_input_tokens = first.cached_input_tokens + second.cached_input_tokens;
  cache_write_input_tokens = first.cache_write_input_tokens + second.cache_write_input_tokens;
  cost_usd = first.cost_usd + second.cost_usd;
}
