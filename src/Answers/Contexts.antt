-- ===== src/Answers/Contexts.antt =====
-- Retrieved contexts have distinct identifiers, so that an answer over them is never refused
-- (src/ragops/generation/service.py).
use rag_eval_platform.Prelude.{
  ℕ, ◌+◌, ltb, ◌||◌, ◌&&◌, ◌==◌, ◌<◌, ◌≡◌, refl, ap, ◌∙◌, inl, inr, Bool, true, false, Option, none,
  some, List, [], ◌∷◌, ◌++◌, arith, Bool-cases, Result, ok, Exec, Error,
}
use rag_eval_platform.Prelude.Text.{
  text_ltb, decimal-injective, append_one-injective, Text, text_eq, text_eq_iff, decimal,
}
use rag_eval_platform.Prelude.Dict.{lookup}
use rag_eval_platform.Prelude.Sort.{insert_sorted, sort}
use rag_eval_platform.Generation.{AnswerResponse, Passage, response_is_valid, GenerationRequest}
use rag_eval_platform.Generation.Validation.{local_ids}
use rag_eval_platform.Generation.Validation.Report.{count, AreUnique}
use rag_eval_platform.Generation.Providers.{Generator, Digests}
use rag_eval_platform.Generation.Providers.Usage.{reported}
use rag_eval_platform.Generation.Answerer.{passage_before, answer}
use rag_eval_platform.Generation.Answerer.Outcome.{IsClassified, Delivers, Carries, Answers-answer}
use rag_eval_platform.Retrieval.{RankedHit, SearchResponse}
use rag_eval_platform.Retrieval.Pipeline.Depth.{AreRanked}
use rag_eval_platform.Answers.{
  AnswerRequest, label, passage_of, passages_of, RetrievalCitedAnswerService, sampled,
  search_request, other_prompt, answer_request,
}

tail_same : (a : ℕ) (s t : Text) → a ∷ s ≡ a ∷ t → s ≡ t
tail_same a s t h = cc

label-injective : (m n : ℕ) → label m ≡ label n → m ≡ n
unfolding label
label-injective m n h =
    decimal-injective m n (append_one-injective (decimal m) (decimal n) 93 (tail_same 91 _ _ h))

count-below :
    (m rank : ℕ) (hits : List RankedHit)
    → m < rank
    → AreRanked rank hits
    → count (label m) (local_ids (passages_of hits)) ≡ 0
count-below m rank [] l h = refl
count-below m rank (hit ∷ hits) l h =
    let rest : count (label m) (local_ids (passages_of hits)) ≡ 0 =
      count-below m (rank + 1) hits (omega arith) h.1 in
    elim (Bool-cases (text_eq (label m) (label hit.rank))) [
      | inl e ↦
          let same : m ≡ hit.rank =
            label-injective m hit.rank ((text_eq_iff (label m) (label hit.rank)).0 e) in
          absurd (lt_irrefl m rank l (same ∙ h.0))
      | inr e ↦ rw e (omega (arith, rest))
    ]
  where
    lt_irrefl : (m n : ℕ) → m < n → m ≡ n → ⊥
    lt_irrefl m n l e = omega arith

-- Hits numbered in order get distinct identifiers.
AreUnique-passages_of :
    (rank : ℕ) (hits : List RankedHit)
    → AreRanked rank hits
    → AreUnique (local_ids (passages_of hits))
AreUnique-passages_of rank [] h s = omega arith
AreUnique-passages_of rank (hit ∷ hits) h s = elim (Bool-cases (text_eq s (label hit.rank))) [
  | inl e ↦
      let same : s ≡ label rank = (text_eq_iff s (label hit.rank)).0 e ∙ ap label h.0 in
      let none_below : count s (local_ids (passages_of hits)) ≡ 0 =
        ap (λ (t : Text). count t (local_ids (passages_of hits))) same
        ∙ count-below rank (rank + 1) hits (omega arith) h.1 in
      rw e (omega (arith, none_below))
  | inr e ↦ rw e (omega (arith, AreUnique-passages_of (rank + 1) hits h.1 s))
]

-- the passages of the hits, one for each in their order, labelled by rank
abbrev pub shown : List RankedHit → List Passage
shown [] = []
shown (hit ∷ hits) =
    record {
      local_id = 91 ∷ decimal hit.rank ++ 93 ∷ [];
      document_id = hit.document_id;
      title = hit.title;
      body = hit.body;
      retrieval_rank = hit.rank;
      retrieval_score = hit.score;
    }
    ∷ shown hits

passages_of-shown : (hits : List RankedHit) → passages_of hits ≡ shown hits
unfolding label
passages_of-shown [] = refl
passages_of-shown (hit ∷ hits) = rw (passages_of-shown hits) refl

insert_sorted-first :
    (x y : Passage) (ys : List Passage)
    → passage_before y x ≡ false
    → insert_sorted passage_before x (y ∷ ys) ≡ x ∷ y ∷ ys
unfolding insert_sorted
insert_sorted-first x y ys h = rw h refl

-- Hits that are numbered in order are in the order of their passages.
sort-shown :
    (rank : ℕ) (hits : List RankedHit)
    → AreRanked rank hits
    → sort passage_before (shown hits) ≡ shown hits
unfolding sort label
sort-shown rank [] h = refl
sort-shown rank (hit ∷ []) h = unfold insert_sorted in refl
sort-shown rank (hit ∷ next ∷ hits) h =
    ap (insert_sorted passage_before (passage_of hit)) (sort-shown (rank + 1) (next ∷ hits) h.1)
    ∙ insert_sorted-first (passage_of hit) (passage_of next) (shown hits)
        (later hit.rank next.rank (label next.rank) (label hit.rank) h.0 h.1.0)
  where
    later :
        (m n : ℕ) (s t : Text)
        → m ≡ rank
        → n ≡ rank + 1
        → (ltb n m || (n == m && text_ltb s t)) ≡ false
    later m n s t e f = ground (arith, e, f)

sort-passages_of :
    (hits : List RankedHit) → AreRanked 1 hits → sort passage_before (passages_of hits) ≡ shown hits
sort-passages_of hits h = ap (sort passage_before) (passages_of-shown hits) ∙ sort-shown 1 hits h

-- Where the profile's answerer is a cited answerer and the search returns hits numbered in order, the
-- service returns a response, whether or not the sampler raises. Its contexts are the hits, one passage
-- for each, in their order, with the rank as label. It carries the generator's answer or the kind of
-- its failure, it passes the contract's check, its outcome agrees with how the answer cites those
-- contexts, and its usage is what the generator reported. It is given that the request names no other
-- prompt, that the prompt over those passages renders and that the generator keeps its promises.
pub answer_request_lem :
    {S : Type 0} (service : RetrievalCitedAnswerService S) (request : AnswerRequest) (d : Digests)
    (g : Generator S) (render : ℕ → List Passage → ℕ → Result Error GenerationRequest)
    (trace_id : ℕ) (response : SearchResponse) (prompt : GenerationRequest) (s s' : S)
    → other_prompt service request request.prompt_version ≡ false
    → lookup request.generator_profile service.answerers ≡ some (answer d g render trace_id)
    → service.search (search_request service request) s ≡ (ok response, s')
    → AreRanked 1 response.hits
    → render request.query (shown response.hits) trace_id ≡ ok prompt
    → Delivers d g (g.generate prompt s').0
    → (r : AnswerResponse) × ((answer_request service request s).0 ≡ ok r)
      × (r.contexts ≡ shown response.hits)
      × Carries d g (g.generate prompt s').0 r
      × (response_is_valid r ≡ true)
      × IsClassified r
      × (reported (g.generate prompt s').0 ≡ some r.usage)
unfolding answer_request
answer_request_lem {S = S} service request d g render trace_id response prompt s s' same_prompt
      profile found ranked rendered delivers =
    let same : sort passage_before (passages_of response.hits) ≡ shown response.hits =
      sort-passages_of response.hits ranked in
    let (r, e, contexts, carries, valid, classified, usage) =
      Answers-answer d g render trace_id request.query (passages_of response.hits) prompt s'
        (ap (λ (t : List Passage). render request.query t trace_id) same ∙ rendered)
        (AreUnique-passages_of 1 response.hits ranked) delivers in
    (
      r,
      rw (same_prompt, profile, found, e)
          (ok_sampled service.online_sampler r (g.generate prompt s').1),
      contexts ∙ same,
      carries,
      valid,
      classified,
      usage,
    )
  where
    ok_sampled :
        (sampler : Option (ℕ → AnswerResponse → Exec S Error Bool)) (r : AnswerResponse) (t : S)
        → (sampled sampler request.query r t).0 ≡ ok r
    ok_sampled none r t = refl
    ok_sampled (some submit) r t = refl
