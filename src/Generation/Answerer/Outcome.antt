-- ===== src/Generation/Answerer/Outcome.antt =====
-- What `CitedAnswerer.answer` returns (src/ragops/generation/service.py).
use rag_eval_platform.Prelude.{
  ℕ, ◌≡◌, refl, ap, ◌∙◌, inl, inr, Bool, true, false, some, List, [], ◌∷◌, arith, is_nil,
  if◌then◌else◌, Bool-cases, Result, ok, err, Error,
}
use rag_eval_platform.Prelude.Text.{Text}
use rag_eval_platform.Prelude.Sort.{sort, insert_sorted}
use rag_eval_platform.Generation.{
  GenerationOutcome, outcome_ok, abstained, citation_error, CitedAnswer, answer_is_valid,
  GenerationRequest, Passage, GenerationResult, AnswerResponse, is_generated, outcome_agrees,
  response_is_valid, FailureKind, schema, refused, provider_failed, timed_out, failure_outcome,
  GenerationFailure, Raised, failed, broke,
}
use rag_eval_platform.Generation.Validation.{local_ids, report}
use rag_eval_platform.Generation.Providers.{Generator, has_provenance, Digests}
use rag_eval_platform.Generation.Validation.Report.{
  count, IsCited, AreUnique, report_iff, validate_citations_lem,
}
use rag_eval_platform.Generation.Providers.Usage.{reported}
use rag_eval_platform.Generation.Answerer.{
  passage_before, classify, failure_response, answer_response, on_generated, answer,
}

count-insert_sorted :
    (s : Text) (x : Passage) (ps : List Passage)
    → count s (local_ids (insert_sorted passage_before x ps)) ≡ count s (local_ids (x ∷ ps))
unfolding insert_sorted
count-insert_sorted s x [] = refl
count-insert_sorted s x (p ∷ ps) = elim (Bool-cases (passage_before p x)) [
  | inl h ↦ rw h (omega (arith, count-insert_sorted s x ps))
  | inr h ↦ rw h refl
]

-- The order of the contexts does not matter for their identifiers.
count-sort :
    (s : Text) (ps : List Passage)
    → count s (local_ids (sort passage_before ps)) ≡ count s (local_ids ps)
unfolding sort
count-sort s [] = refl
count-sort s (x ∷ ps) =
    count-insert_sorted s x (sort passage_before ps) ∙ omega (arith, count-sort s ps)

AreUnique-sort :
    (ps : List Passage) → AreUnique (local_ids ps) → AreUnique (local_ids (sort passage_before ps))
AreUnique-sort ps u s = omega (arith, count-sort s ps, u s)

-- the answer that a response carries
abbrev pub answer_of : AnswerResponse → CitedAnswer
answer_of r = record {
  answer = r.answer;
  citations = r.citations;
  abstained = r.abstained;
  confidence = r.confidence;
  verification_label = r.verification_label;
  rationale_sentences = r.rationale_sentences;
}

-- The outcome says how the answer cites the contexts of the response.
pub record IsClassified (r : AnswerResponse) : Type 0 where
  pub ok_cites :
      r.outcome ≡ outcome_ok → IsCited (answer_of r) (local_ids r.contexts) × (r.abstained ≡ false)
  pub abstained_cites :
      r.outcome ≡ abstained → IsCited (answer_of r) (local_ids r.contexts) × (r.abstained ≡ true)
  pub error_cites : r.outcome ≡ citation_error → ¬ IsCited (answer_of r) (local_ids r.contexts)

is_generated-classify : (valid abstains : Bool) → is_generated (classify valid abstains) ≡ true
is_generated-classify true true = refl
is_generated-classify true false = refl
is_generated-classify false abstains = refl

outcome_agrees-classify :
    (valid abstains : Bool) (citations : List Text)
    → (valid ≡ true → is_nil citations ≡ abstains)
    → outcome_agrees (classify valid abstains) abstains citations valid ≡ true
outcome_agrees-classify true true citations h = ground (arith, h refl)
outcome_agrees-classify true false citations h = ground (arith, h refl)
outcome_agrees-classify false abstains citations h = refl

module _ {S : Type 0} (d : Digests) (g : Generator S) where
  -- What a generator promises: its results carry its own provenance and a valid answer, and it
  -- raises nothing but generation failures.
  abbrev pub Delivers : Result Raised GenerationResult → Type 0
  Delivers (ok result) =
      (has_provenance d g result ≡ true) × (answer_is_valid result.output.answer ≡ true)
  Delivers (err (failed e)) = Unit
  Delivers (err (broke e)) = ⊥

  -- the response carries what the generator delivered, or says how it failed
  abbrev pub Carries : Result Raised GenerationResult → AnswerResponse → Type 0
  Carries (ok result) r = (answer_of r ≡ result.output) × (is_generated r.outcome ≡ true)
  Carries (err (failed e)) r = r.outcome ≡ failure_outcome e.kind
  Carries (err (broke e)) r = ⊥

  -- the response over the contexts to a call of the generator that came to this end
  abbrev pub Answers :
      List Passage → Result Raised GenerationResult × S → Result Error AnswerResponse × S → Type 0
  Answers contexts called out =
      (r : AnswerResponse) × (out ≡ (ok r, called.1))
      × (r.contexts ≡ contexts)
      × Carries called.0 r
      × (response_is_valid r ≡ true)
      × IsClassified r
      × (reported called.0 ≡ some r.usage)

  module _ (contexts : List Passage) (request : GenerationRequest) where
    response_is_valid-answer_response :
        (result : GenerationResult)
        → answer_is_valid result.output.answer ≡ true
        → response_is_valid (
            answer_response d g contexts request result (report result.output (local_ids contexts)))
          ≡ true
    unfolding response_is_valid
    response_is_valid-answer_response result v =
        let known : List Text = local_ids contexts in
        let valid : Bool = (report result.output known).valid in
        rw (is_generated-classify valid result.output.abstained, v)
          (outcome_agrees-classify valid result.output.abstained result.output.citations
            (λ h. ((report_iff result.output known).0 h).abstains_uncited))

    answer_response-IsClassified :
        (result : GenerationResult)
        → IsClassified (
            answer_response d g contexts request result (report result.output (local_ids contexts)))
    answer_response-IsClassified result = record {
      ok_cites =
          λ e. ok_case (report result.output known).valid result.output.abstained refl refl e;
      abstained_cites = λ e.
          abstained_case (report result.output known).valid result.output.abstained refl refl e;
      error_cites = λ e c.
          error_case (report result.output known).valid result.output.abstained
            ((report_iff result.output known).1 c) e;
    }
      where
        known : List Text
        known = local_ids contexts

        ok_case :
            (valid abstains : Bool)
            → (report result.output known).valid ≡ valid
            → result.output.abstained ≡ abstains
            → classify valid abstains ≡ outcome_ok
            → IsCited result.output known × (result.output.abstained ≡ false)
        ok_case true true p q e = cc
        ok_case true false p q e = ((report_iff result.output known).0 p, q)
        ok_case false abstains p q e = cc

        abstained_case :
            (valid abstains : Bool)
            → (report result.output known).valid ≡ valid
            → result.output.abstained ≡ abstains
            → classify valid abstains ≡ abstained
            → IsCited result.output known × (result.output.abstained ≡ true)
        abstained_case true true p q e = ((report_iff result.output known).0 p, q)
        abstained_case true false p q e = cc
        abstained_case false abstains p q e = cc

        error_case :
            (valid abstains : Bool) → valid ≡ true → classify valid abstains ≡ citation_error → ⊥
        error_case true true p e = cc
        error_case true false p e = cc
        error_case false abstains p e = cc

    failure_response-valid :
        (e : GenerationFailure) → response_is_valid (failure_response d g contexts request e) ≡ true
    unfolding response_is_valid
    failure_response-valid e = kind e.kind
      where
        kind : (k : FailureKind) → (if is_generated (failure_outcome k) then false else true) ≡ true
        kind schema = refl
        kind refused = refl
        kind provider_failed = refl
        kind timed_out = refl

    failure_response-IsClassified :
        (e : GenerationFailure) → IsClassified (failure_response d g contexts request e)
    failure_response-IsClassified e = record {
      ok_cites = λ h. absurd (other outcome_ok e.kind refl h);
      abstained_cites = λ h. absurd (other abstained e.kind refl h);
      error_cites = λ h c. other citation_error e.kind refl h;
    }
      where
        other :
            (o : GenerationOutcome) (k : FailureKind)
            → is_generated o ≡ true
            → failure_outcome k ≡ o
            → ⊥
        other o schema p h = cc (ap is_generated h)
        other o refused p h = cc (ap is_generated h)
        other o provider_failed p h = cc (ap is_generated h)
        other o timed_out p h = cc (ap is_generated h)

    Answers-on_generated :
        (out : Result Raised GenerationResult × S)
        → AreUnique (local_ids contexts)
        → Delivers out.0
        → Answers contexts out (on_generated d g contexts request out)
    Answers-on_generated (ok result, s) unique (p, v) =
        let known : List Text = local_ids contexts in
        let r : AnswerResponse =
          answer_response d g contexts request result (report result.output known) in
        rw
          (
            p,
            (validate_citations_lem result.output contexts).0 unique,
            response_is_valid-answer_response result v,
          )
          (
            r,
            refl,
            refl,
            (
              refl,
              is_generated-classify (report result.output known).valid result.output.abstained,
            ),
            response_is_valid-answer_response result v,
            answer_response-IsClassified result,
            refl,
          )
    Answers-on_generated (err (failed e), s) unique p = rw (failure_response-valid e) (
      failure_response d g contexts request e,
      refl,
      refl,
      refl,
      failure_response-valid e,
      failure_response-IsClassified e,
      refl,
    )
    Answers-on_generated (err (broke e), s) unique p = absurd p

  -- The answerer returns whatever the generator does, as long as that keeps its promises, the
  -- prompt renders and no two contexts share an identifier. The response passes the contract's
  -- check; its outcome tells whether the answer cites the contexts properly, abstains, or neither;
  -- and its usage is what the generator reported, by a result or by a failure.
  pub Answers-answer :
      (render : ℕ → List Passage → ℕ → Result Error GenerationRequest) (trace_id query : ℕ)
      (contexts : List Passage) (request : GenerationRequest) (s : S)
      → render query (sort passage_before contexts) trace_id ≡ ok request
      → AreUnique (local_ids contexts)
      → Delivers (g.generate request s).0
      → (r : AnswerResponse) × (answer d g render trace_id query contexts s
          ≡ (ok r, (g.generate request s).1))
        × (r.contexts ≡ sort passage_before contexts)
        × Carries (g.generate request s).0 r
        × (response_is_valid r ≡ true)
        × IsClassified r
        × (reported (g.generate request s).0 ≡ some r.usage)
  unfolding answer
  Answers-answer render trace_id query contexts request s rendered unique delivers =
      rw (rendered, answer)
        (Answers-on_generated (sort passage_before contexts) request (g.generate request s)
          (AreUnique-sort contexts unique) delivers)
