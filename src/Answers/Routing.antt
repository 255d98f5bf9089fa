-- ===== src/Answers/Routing.antt =====
-- Which service a request reaches (src/ragops/generation/service.py).
use rag_eval_platform.Prelude.{
  ℕ, ◌≡◌, refl, ap, ◌∙◌, false, not, none, some, ◌==◌, ==_refl, err, value_error, key_error,
}
use rag_eval_platform.Prelude.Dict.{lookup, lookup_or}
use rag_eval_platform.Answers.{
  AnswerRequest, AnswerService, RetrievalCitedAnswerService, other_prompt, answer_request,
  DatasetRoutingAnswerService, masked, route,
}

module _ {S : Type 0} (router : DatasetRoutingAnswerService S) (request : AnswerRequest)
    (s : S) where
  -- A request that names no prompt version goes to the service of its dataset, or to the default one.
  -- A request that names one goes to the service of the version, whose outcome is handed on except
  -- that a KeyError becomes a ValueError; without such a service a ValueError is raised.
  route_lem :
      (request.prompt_version ≡ none
        → route router request s
          ≡ lookup_or request.dataset router.default_service router.by_dataset request s)
      × ((version : ℕ) (service : AnswerService S)
          → request.prompt_version ≡ some version
          → lookup version router.by_prompt_version ≡ some service
          → route router request s ≡ masked router request (service request s))
      × ((version : ℕ)
          → request.prompt_version ≡ some version
          → lookup version router.by_prompt_version ≡ none
          → route router request s ≡ (err value_error, s))
  unfolding route
  route_lem = (λ h. rw h refl, λ version service h k. rw (h, k) refl, λ version h k. rw (h, k) refl)

-- A request with an unknown generator profile raises a KeyError in the answer service, which names
-- the profile. Where the request names the prompt version of that service, the router raises a
-- ValueError instead, which says that no service is configured for the prompt.
pub route-unknown_profile :
    {S : Type 0} (router : DatasetRoutingAnswerService S) (service : RetrievalCitedAnswerService S)
    (request : AnswerRequest) (s : S)
    → request.prompt_version ≡ some service.prompt_version
    → lookup service.prompt_version router.by_prompt_version ≡ some (answer_request service)
    → lookup request.generator_profile service.answerers ≡ none
    → (answer_request service request s ≡ (err key_error, s))
      × (route router request s ≡ (err value_error, s))
unfolding route answer_request
route-unknown_profile router service request s named routed unknown =
    let same : other_prompt service request request.prompt_version ≡ false =
      ap (other_prompt service request) named ∙ not_refl service.prompt_version in
    let raised : answer_request service request s ≡ (err key_error, s) = rw (same, unknown) refl in
    let routes = route_lem router request s in
    (
      raised,
      routes.1 service.prompt_version (answer_request service) named routed
          ∙ ap (masked router request) raised,
    )
  where
    not_refl : (n : ℕ) → not (n == n) ≡ false
    not_refl n = ap not (==_refl n)
