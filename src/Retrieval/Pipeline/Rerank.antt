-- ===== src/Retrieval/Pipeline/Rerank.antt =====
-- Reranking reorders and never drops a hit (src/ragops/retrieval/pipeline.py).
use rag_eval_platform.Prelude.{
  ℕ, suc, ◌≡◌, refl, sym, ap, ◌∙◌, subst, ◌≢◌, Bool, true, false, not, Option, none, some, List, [],
  ◌∷◌, ◌++◌, arith, ◌==◌, length, take, filter, contains, contains-append, Distinct, names,
  names-append, names-take, length-names, length_same, contains-names-filter, Distinct-names-filter,
  Distinct-take, Distinct-append, contains_of_take, Result, ok, pure, or_raise, continue,
  continue_ok, raise_if, Error, value_error, key_error, compatible_index_not_found,
}
use rag_eval_platform.Prelude.Dict.{Dict, lookup}
use rag_eval_platform.Prelude.Sort.{contains-sort, Distinct-sort}
use rag_eval_platform.Retrieval.{StageHit, RerankStageConfig, SearchRequest, rerank}
use rag_eval_platform.Retrieval.Fusion.{hit_id}
use rag_eval_platform.Retrieval.Pipeline.{
  IndexVersion, PersistedDocument, Services, Collected, in_stage, in_order, rescored,
  original_ranks, reranks_before, reorder, promote, rerank_candidates, accept_scores,
  score_documents, score_candidates, score_loaded, promote_reranked, rerank_stage,
}

-- two lists of hits on the same documents, each once
abbrev pub SameDocuments : List StageHit → List StageHit → Type 0
SameDocuments before after =
    Distinct (names hit_id after)
    × ((d : ℕ) → contains d (names hit_id after) ≡ contains d (names hit_id before))
    × (length after ≡ length before)

nonzero : (n : ℕ) → 0 ≢ suc n
nonzero n h = omega (arith, h)

names-rescored :
    (services : Services) (request : SearchRequest) (hits : List StageHit) (scores : List ℕ)
    → length scores ≡ length hits
    → names hit_id (rescored services request hits scores) ≡ names hit_id hits
names-rescored services request [] scores h = refl
names-rescored services request (x ∷ hits) [] h = absurd (nonzero (length hits) h)
names-rescored services request (x ∷ hits) (s ∷ scores) h =
    rw (names-rescored services request hits scores (omega (arith, h)))

module _ (services : Services) (request : SearchRequest) where
  -- A promotion of hits from a window of the list.
  promote-SameDocuments :
      (keep window : ℕ) (reranked current : List StageHit)
      → Distinct (names hit_id current)
      → Distinct (names hit_id reranked)
      → ((d : ℕ)
          → contains d (names hit_id reranked) ≡ contains d (names hit_id (take window current)))
      → SameDocuments current (promote services request keep reranked current)
  promote-SameDocuments keep window reranked current distinct new same =
      let top : List StageHit = take keep reranked in
      let kept : ℕ → Bool = λ d. not (contains d (names hit_id top)) in
      let below : List StageHit = filter (λ h. kept (hit_id h)) current in
      let top_distinct : Distinct (names hit_id top) =
        rw (names-take hit_id keep reranked) (Distinct-take keep (names hit_id reranked) new) in
      let inside : (d : ℕ)
          → contains d (names hit_id top) ≡ true
          → contains d (names hit_id current) ≡ true =
        λ d h.
          let c : contains d (names hit_id reranked) ≡ true =
            contains_of_take d keep (names hit_id reranked)
              (ap (contains d) (sym (names-take hit_id keep reranked)) ∙ h) in
          contains_of_take d window (names hit_id current)
            (ap (contains d) (sym (names-take hit_id window current)) ∙ sym (same d) ∙ c) in
      let d : Distinct (names hit_id (top ++ below)) = rw (names-append hit_id top below) (
        Distinct-append (names hit_id top) (names hit_id below) top_distinct
          (Distinct-names-filter hit_id kept current distinct)
          (λ a c. ground (arith, contains-names-filter hit_id a kept current))) in
      let m : (a : ℕ)
          → contains a (names hit_id (top ++ below)) ≡ contains a (names hit_id current) =
        λ a.
          ap (contains a) (names-append hit_id top below)
          ∙ contains-append a (names hit_id top) (names hit_id below)
          ∙ ground (arith, contains-names-filter hit_id a kept current, inside a) in
      (
        d,
        m,
        sym (length-names hit_id (top ++ below))
            ∙ length_same (names hit_id (top ++ below)) (names hit_id current) d distinct m
            ∙ length-names hit_id current,
      )

  -- what the reranker hands back: the candidates, each once
  rerank_candidates-ok :
      (index : IndexVersion) (model : ℕ) (candidates out : List StageHit) (c c' : Collected)
      → rerank_candidates services request index model candidates c ≡ (ok out, c')
      → (scores : List ℕ) × (out ≡ reorder services request candidates scores)
        × (length scores ≡ length candidates)
  rerank_candidates-ok index model candidates out c c' h =
      let loaded : Result Error (Dict PersistedDocument) =
        services.load_documents index.corpus_version_id (names hit_id candidates) in
      let (documents, (s1, e1, h1)) =
        continue_ok (score_loaded services request model candidates) (loaded, c) out c' h in
      let (score, (s2, e2, h2)) =
        continue_ok (score_candidates services request candidates documents)
          (or_raise (lookup model services.rerankers) compatible_index_not_found s1) out c' h1 in
      let (ordered, (s3, e3, h3)) =
        continue_ok (score_documents services request candidates score)
          (or_raise (in_order services request documents (names hit_id candidates)) key_error s2)
          out c' h2 in
      let (scores, (s4, e4, h4)) =
        continue_ok (accept_scores services request candidates) (score request.query ordered, s3)
          out c' h3 in
      accepted scores s4 (length scores == length candidates) refl h4
    where
      accepted :
          (scores : List ℕ) (s : Collected) (b : Bool)
          → (length scores == length candidates) ≡ b
          → continue
              (λ u. pure (reorder services request candidates scores))
              (raise_if (not b) value_error s)
            ≡ (ok out, c')
          → (scores : List ℕ) × (out ≡ reorder services request candidates scores)
            × (length scores ≡ length candidates)
      accepted scores s true e h = (scores, ground (arith, h), ground (arith, e))
      accepted scores s false e h = cc

  reorder-names :
      (candidates : List StageHit) (scores : List ℕ)
      → length scores ≡ length candidates
      → Distinct (names hit_id candidates)
      → Distinct (names hit_id (reorder services request candidates scores))
        × ((d : ℕ)
            → contains d (names hit_id (reorder services request candidates scores))
              ≡ contains d (names hit_id candidates))
  reorder-names candidates scores e d =
      let lt : StageHit → StageHit → Bool =
        reranks_before services request (original_ranks services request 0 candidates []) in
      let same : names hit_id (rescored services request candidates scores)
          ≡ names hit_id candidates =
        names-rescored services request candidates scores e in
      (
        Distinct-sort lt hit_id (rescored services request candidates scores) (rw same d),
        λ a.
            contains-sort lt hit_id a (rescored services request candidates scores)
            ∙ ap (contains a) same,
      )

  -- Where the stage returns on a list without repetition, the list it hands on holds the same
  -- documents, each once, and has the same length, whatever the reranker scores and whatever the
  -- window and the number of promoted hits are.
  pub rerank_stage-SameDocuments :
      (index : IndexVersion) (stage : Option RerankStageConfig) (current out : List StageHit)
      (c c' : Collected)
      → Distinct (names hit_id current)
      → rerank_stage services request index stage current c ≡ (ok out, c')
      → SameDocuments current out
  rerank_stage-SameDocuments index none current out c c' d h =
      let e : current ≡ out = ground (arith, h) in
      subst (SameDocuments current) e (d, λ a. refl, refl)
  rerank_stage-SameDocuments index (some stage) current out c c' d h =
      let window : List StageHit = take stage.candidates current in
      let scored : Result Error (List StageHit) × Collected =
        rerank_candidates services request index stage.model window c in
      let (reranked, (s1, e1, h1)) =
        continue_ok (promote_reranked services request stage current)
          (in_stage rerank (rerank_candidates services request index stage.model window) c) out c'
          h in
      let window_distinct : Distinct (names hit_id window) =
        rw (names-take hit_id stage.candidates current)
          (Distinct-take stage.candidates (names hit_id current) d) in
      let (scores, r, l) =
        rerank_candidates-ok index stage.model window reranked c scored.1
          (ap (λ (p : Result Error (List StageHit) × Collected). (p.0, scored.1)) e1) in
      let (new, same) = reorder-names window scores l window_distinct in
      let same_out : promote services request stage.keep reranked current ≡ out =
        ground (arith, h1) in
      subst (SameDocuments current) same_out (
        promote-SameDocuments stage.keep stage.candidates reranked current d
          (subst (λ (x : List StageHit). Distinct (names hit_id x)) (sym r) new)
          (λ a. ap (λ (x : List StageHit). contains a (names hit_id x)) r ∙ same a))
