-- ===== src/Answers.antt =====
-- The answer services of src/ragops/generation/service.py: retrieval feeds an answerer, and a router
-- picks the service of a dataset or a prompt version.
pub mod Contexts
pub mod Routing
mod Tests
use rag_eval_platform.Prelude.{
  ℕ, Bool, false, not, ◌&&◌, Option, none, some, List, [], ◌∷◌, ◌++◌, leb, ◌==◌, is_nil, Result, ok,
  err, Exec, or_raise, ◌>>=◌, ◌>>◌, raise_if, Error, value_error, key_error,
}
use rag_eval_platform.Prelude.Text.{Text, decimal}
use rag_eval_platform.Prelude.Dict.{Dict, lookup, lookup_or}
use rag_eval_platform.Generation.{Passage, AnswerResponse}
use rag_eval_platform.Retrieval.{RankedHit, SearchRequest, SearchResponse}

pub record AnswerRequest : Type 0 where
  pub query : ℕ
  pub dataset : ℕ
  pub variant : ℕ
  pub generator_profile : ℕ
  pub prompt_version : Option ℕ

-- f"[{hit.rank}]"
pub label : ℕ → Text
label rank = 91 ∷ decimal rank ++ 93 ∷ []

abbrev pub passage_of : RankedHit → Passage
passage_of hit = record {
  local_id = label hit.rank;
  document_id = hit.document_id;
  title = hit.title;
  body = hit.body;
  retrieval_rank = hit.rank;
  retrieval_score = hit.score;
}

abbrev pub passages_of : List RankedHit → List Passage
passages_of [] = []
passages_of (hit ∷ hits) = passage_of hit ∷ passages_of hits

abbrev pub Answerer : Type 0 → Type 0
Answerer S = ℕ → List Passage → Exec S Error AnswerResponse

abbrev pub AnswerService : Type 0 → Type 0
AnswerService S = AnswerRequest → Exec S Error AnswerResponse

-- `RetrievalCitedAnswerService`
pub record RetrievalCitedAnswerService (S : Type 0) : Type 0 where
  pub search : SearchRequest → Exec S Error SearchResponse
  pub answerers : Dict (Answerer S)
  pub prompt_version : ℕ
  pub context_count : ℕ
  pub online_sampler : Option (ℕ → AnswerResponse → Exec S Error Bool)

-- the constructor's checks
abbrev service_is_valid : {S : Type 0} → RetrievalCitedAnswerService S → Bool
service_is_valid service =
    leb 1 service.context_count && leb service.context_count 100 && not (is_nil service.answerers)

module _ {S : Type 0} where
  -- Sampling is best effort: an exception of the sampler is caught.
  abbrev pub sampled :
      Option (ℕ → AnswerResponse → Exec S Error Bool)
      → ℕ
      → AnswerResponse
      → Exec S Error AnswerResponse
  sampled none query answer s = (ok answer, s)
  sampled (some submit) query answer s = (ok answer, (submit query answer s).1)

  module _ (service : RetrievalCitedAnswerService S) (request : AnswerRequest) where
    abbrev pub search_request : SearchRequest
    search_request = record {
      query = request.query;
      dataset = request.dataset;
      variant = request.variant;
      k = service.context_count;
    }

    -- whether the request names another prompt than the service's
    abbrev pub other_prompt : Option ℕ → Bool
    other_prompt none = false
    other_prompt (some version) = not (version == service.prompt_version)

    abbrev answer_found : Answerer S → SearchResponse → Exec S Error AnswerResponse
    answer_found answerer response =
        answerer request.query (passages_of response.hits)
        >>= sampled service.online_sampler request.query

    abbrev answer_by : Answerer S → Exec S Error AnswerResponse
    answer_by answerer = service.search search_request >>= answer_found answerer

    abbrev answer_prompted : Unit {0} → Exec S Error AnswerResponse
    answer_prompted checked =
        or_raise (lookup request.generator_profile service.answerers) key_error >>= answer_by

    -- `RetrievalCitedAnswerService.answer`
    pub answer_request : Exec S Error AnswerResponse
    answer_request = raise_if (other_prompt request.prompt_version) value_error >>= answer_prompted

-- `DatasetRoutingAnswerService`
pub record DatasetRoutingAnswerService (S : Type 0) : Type 0 where
  pub default_service : AnswerService S
  pub by_dataset : Dict (AnswerService S)
  pub by_prompt_version : Dict (AnswerService S)

module _ {S : Type 0} (router : DatasetRoutingAnswerService S) (request : AnswerRequest) where
  -- `except KeyError`, which stands round the lookup and the call
  abbrev pub masked : Result Error AnswerResponse × S → Result Error AnswerResponse × S
  masked (err key_error, s) = (err value_error, s)
  masked out = out

  abbrev route_prompt : ℕ → Exec S Error AnswerResponse
  route_prompt version s = masked (elim (lookup version router.by_prompt_version) [
    | none ↦ (err key_error, s)
    | some service ↦ service request s
  ])

  abbrev route_dataset : Exec S Error AnswerResponse
  route_dataset = lookup_or request.dataset router.default_service router.by_dataset request

  pub route : Exec S Error AnswerResponse
  route s = elim request.prompt_version [
    | some version ↦ route_prompt version s
    | none ↦ route_dataset s
  ]
