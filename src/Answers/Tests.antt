-- ===== src/Answers/Tests.antt =====
-- A service over one retrieved passage, behind a router, and the theorems on answers there.
use rag_eval_platform.Prelude.{
  ℕ, ◌+◌, ◌≡◌, refl, true, false, Option, none, some, List, [], ◌∷◌, Result, ok, err, Error,
  value_error, key_error, runtime_error,
}
use rag_eval_platform.Prelude.Text.{codes}
use rag_eval_platform.Generation.{
  AnswerResponse, Passage, response_is_valid, GenerationRequest, GenerationResult, no_usage,
  CitedAnswer, high,
}
use rag_eval_platform.Generation.Providers.{Generator, Digests}
use rag_eval_platform.Generation.Answerer.{answer}
use rag_eval_platform.Generation.Answerer.Outcome.{IsClassified, Carries}
use rag_eval_platform.Retrieval.{SearchResponse}
use rag_eval_platform.Answers.{
  AnswerRequest, RetrievalCitedAnswerService, answer_request, DatasetRoutingAnswerService, route,
}
use rag_eval_platform.Answers.Contexts.{shown, answer_request_lem}
use rag_eval_platform.Answers.Routing.{route-unknown_profile}

abbrev output : CitedAnswer
output = record {
  answer = codes "yes [1]";
  citations = codes "[1]" ∷ [];
  abstained = false;
  confidence = high;
  verification_label = none;
  rationale_sentences = [];
}

abbrev result : GenerationResult
result = record {
  output = output;
  usage = no_usage;
  provider = 1;
  model = 2;
  generator_configuration_hash = 3;
  provider_request_id = none;
  cache_hit = false;
}

abbrev generator : Generator ℕ
generator = record {
  provider = 1;
  model = 2;
  configuration_hash = 3;
  generate = λ request s. (ok result, s + 1);
}

abbrev digests : Digests
digests = record { prompt = λ v s u. v; key = λ c m v p h. h }

abbrev prompt : GenerationRequest
prompt = record {
  system_prompt = codes "sys";
  user_prompt = codes "ask";
  prompt_version = 5;
  trace_id = 1;
}

abbrev render : ℕ → List Passage → ℕ → Result Error GenerationRequest
render query contexts trace = ok prompt

abbrev response : SearchResponse
response = record {
  hits =
      record { document_id = 3; title = 1; body = 2; rank = 1; score = 9; stage_scores = [] }
      ∷ record { document_id = 4; title = 1; body = 2; rank = 2; score = 8; stage_scores = [] }
      ∷ [];
  timings = [];
  trace_id = 1;
  variant_hash = 2;
  index_fingerprint = 3;
}

-- The sampler always raises.
abbrev service : RetrievalCitedAnswerService ℕ
service = record {
  search = λ request s. (ok response, s);
  answerers = (4, answer digests generator render 1) ∷ [];
  prompt_version = 5;
  context_count = 10;
  online_sampler = some (λ query answer s. (err runtime_error, s));
}

abbrev request : ℕ → Option ℕ → AnswerRequest
request profile version = record {
  query = 1;
  dataset = 8;
  variant = 7;
  generator_profile = profile;
  prompt_version = version;
}

answer_request_lem_example :
    (r : AnswerResponse) × ((answer_request service (request 4 (some 5)) 0).0 ≡ ok r)
    × (r.contexts ≡ shown response.hits)
    × Carries digests generator (ok result) r
    × (response_is_valid r ≡ true)
    × IsClassified r
    × (some no_usage ≡ some r.usage)
answer_request_lem_example =
    answer_request_lem service (request 4 (some 5)) digests generator render 1 response prompt 0 0
      refl refl refl (refl, (refl, tt)) refl (refl, refl)

abbrev router : DatasetRoutingAnswerService ℕ
router = record {
  default_service = answer_request service;
  by_dataset = [];
  by_prompt_version = (5, answer_request service) ∷ [];
}

route-unknown_profile_example :
    (answer_request service (request 6 (some 5)) 0 ≡ (err key_error, 0))
    × (route router (request 6 (some 5)) 0 ≡ (err value_error, 0))
route-unknown_profile_example =
    route-unknown_profile router service (request 6 (some 5)) 0 refl refl refl
