-- ===== src/Retrieval/Pipeline/Depth.antt =====
-- What a search returns (src/ragops/retrieval/pipeline.py).
use rag_eval_platform.Prelude.{
  ℕ, ◌+◌, ◌≤◌, min, ◌≡◌, refl, sym, ap, ◌∙◌, subst, Option, none, some, List, [], ◌∷◌, arith,
  length, take, Distinct, names, names-take, length-names, Distinct-take, length-take, Result, ok,
  or_raise, continue, continue_ok, Error, key_error,
}
use rag_eval_platform.Prelude.Dict.{Dict, lookup}
use rag_eval_platform.Retrieval.{
  StageHit, VariantConfig, SearchRequest, RankedHit, hydrate_results, SearchResponse,
}
use rag_eval_platform.Retrieval.Fusion.{hit_id}
use rag_eval_platform.Retrieval.Pipeline.{
  IndexVersion, PersistedDocument, Services, Collected, call, in_stage, hydrate_from, respond_with,
  respond_ranked, search_manifest, search_variant, rerank_stage, hydrated, with_hit, hydrate,
  retrieved, ranking, respond, search, dense_model,
}
use rag_eval_platform.Retrieval.Pipeline.Rerank.{SameDocuments, rerank_stage-SameDocuments}
use rag_eval_platform.Retrieval.Pipeline.Sources.{HasDistinctHits, retrieved-Distinct}

abbrev pub ranked_id : RankedHit → ℕ
ranked_id h = h.document_id

-- the ranks from the given one on
abbrev pub AreRanked : ℕ → List RankedHit → Type 0
AreRanked rank [] = Unit
AreRanked rank (h ∷ hits) = (h.rank ≡ rank) × AreRanked (rank + 1) hits

module _ (services : Services) (request : SearchRequest) where
  hydrated-ok :
      (documents : Dict PersistedDocument) (scores : Dict (Dict ℕ)) (rank : ℕ)
      (hits : List StageHit) (out : List RankedHit)
      → hydrated services request documents scores rank hits ≡ some out
      → (names ranked_id out ≡ names hit_id hits) × AreRanked rank out
  hydrated-ok documents scores rank [] out h =
      let same : [] ≡ out = ground (arith, h) in
      subst (λ (x : List RankedHit). (names ranked_id x ≡ []) × AreRanked rank x) same (refl, tt)
  hydrated-ok documents scores rank (x ∷ hits) out h =
      put (lookup x.document_id documents) (lookup x.document_id scores)
        (hydrated services request documents scores (rank + 1) hits)
        (hydrated-ok documents scores (rank + 1) hits) h
    where
      put :
          (d : Option PersistedDocument) (own : Option (Dict ℕ)) (rest : Option (List RankedHit))
          → ((y : List RankedHit)
              → rest ≡ some y
              → (names ranked_id y ≡ names hit_id hits) × AreRanked (rank + 1) y)
          → with_hit services request rank x d own rest ≡ some out
          → (names ranked_id out ≡ names hit_id (x ∷ hits)) × AreRanked rank out
      put (some d) (some own) (some rest) e h =
          let (ids, ranks) = e rest refl in
          let hit : RankedHit = record {
            document_id = x.document_id;
            title = d.title;
            body = d.body;
            rank = rank;
            score = x.score;
            stage_scores = own;
          } in
          let same : hit ∷ rest ≡ out = ground (arith, h) in
          subst
            (λ (y : List RankedHit).
              (names ranked_id y ≡ names hit_id (x ∷ hits)) × AreRanked rank y)
            same (ap (λ (y : List ℕ). x.document_id ∷ y) ids, (refl, ranks))
      put (some d) (some own) none e h = cc
      put (some d) none rest e h = cc
      put none own rest e h = cc

  -- A response lists the first `request.k` hits of the ranking.
  respond-ok :
      (trace_id : ℕ) (variant : VariantConfig) (index : IndexVersion) (r : SearchResponse)
      (c c' : Collected)
      → respond services request trace_id variant index c ≡ (ok r, c')
      → (current : List StageHit) × ((s : Collected) × (ranking services request variant index c
            ≡ (ok current, s))
          × (names ranked_id r.hits ≡ take request.k (names hit_id current))
          × AreRanked 1 r.hits)
  respond-ok trace_id variant index r c c' h =
      let (current, (s1, e1, h1)) =
        continue_ok (respond_ranked services request trace_id variant index)
          (ranking services request variant index c) r c' h in
      let final : List StageHit = take request.k current in
      let (hits, (s2, e2, h2)) =
        continue_ok (respond_with services request trace_id variant index)
          (hydrate services request index final s1) r c' h1 in
      let loaded : Result Error (Dict PersistedDocument) =
        services.load_documents index.corpus_version_id (names hit_id final) in
      let (documents, (s3, e3, h3)) =
        continue_ok (hydrate_from services request final)
          (in_stage hydrate_results (call loaded) s1) hits s2 e2 in
      let (ids, ranks) =
        hydrated-ok documents s3.stage_scores 1 final hits
          (found (hydrated services request documents s3.stage_scores 1 final) s3 hits s2 h3) in
      let same : hits ≡ r.hits = ground (arith, h2) in
      (
        current,
        (
          s1,
          e1,
          ap (names ranked_id) (sym same) ∙ ids ∙ names-take hit_id request.k current,
          subst (AreRanked 1) same ranks,
        ),
      )
    where
      found :
          (o : Option (List RankedHit)) (s : Collected) (hits : List RankedHit) (s' : Collected)
          → or_raise o key_error s ≡ (ok hits, s')
          → o ≡ some hits
      found none s hits s' h = cc
      found (some x) s hits s' h = ground (arith, h)

  ranking-SameDocuments :
      (variant : VariantConfig) (index : IndexVersion) (out : List StageHit) (c c' : Collected)
      → HasDistinctHits services
      → ranking services request variant index c ≡ (ok out, c')
      → (current : List StageHit) × ((s : Collected) × (retrieved services request variant index c
            ≡ (ok current, s))
          × SameDocuments current out)
  ranking-SameDocuments variant index out c c' laws h =
      let (current, (s, e, h1)) =
        continue_ok (rerank_stage services request index variant.rerank)
          (retrieved services request variant index c) out c' h in
      (
        current,
        (
          s,
          e,
          rerank_stage-SameDocuments services request index variant.rerank current out s c'
              (retrieved-Distinct services request laws variant index current c s e) h1,
        ),
      )

length-take-names :
    {A B : Type 0} (f : A → ℕ) (g : B → ℕ) (k : ℕ) (xs : List A) (ys : List B)
    → names f xs ≡ take k (names g ys)
    → length xs ≡ min k (length ys)
length-take-names f g k xs ys h =
    sym (length-names f xs)
    ∙ ap length h
    ∙ length-take k (names g ys)
    ∙ ap (min k) (length-names g ys)

-- What a client sees of a response.
pub record IsRanking (k : ℕ) (hits : List RankedHit) : Type 0 where
  pub distinct : Distinct (names ranked_id hits)
  pub ranked : AreRanked 1 hits
  pub bounded : length hits ≤ k

module _ (services : Services) (request : SearchRequest) where
  respond-IsRanking :
      (trace_id : ℕ) (variant : VariantConfig) (index : IndexVersion) (r : SearchResponse)
      (c c' : Collected)
      → HasDistinctHits services
      → respond services request trace_id variant index c ≡ (ok r, c')
      → IsRanking request.k r.hits
  respond-IsRanking trace_id variant index r c c' laws h =
      let (out, (s, e, ids, ranks)) = respond-ok services request trace_id variant index r c c' h in
      let (current, (s1, e1, same)) =
        ranking-SameDocuments services request variant index out c s laws e in
      record {
        distinct = subst Distinct (sym ids) (Distinct-take request.k (names hit_id out) same.0);
        ranked = ranks;
        bounded = omega (arith, length-take-names ranked_id hit_id request.k r.hits out ids);
      }

  -- Where the store and the sparse retriever return no document twice, a search that returns lists
  -- at most `request.k` hits, no document twice, and numbers them 1, 2, 3 and so on, by whatever
  -- stages the variant has.
  pub search-IsRanking :
      (trace_id : ℕ) (r : SearchResponse)
      → HasDistinctHits services
      → search services request trace_id ≡ ok r
      → IsRanking request.k r.hits
  unfolding search
  search-IsRanking trace_id r laws h =
      let start : Collected = record { timings = []; stage_scores = [] } in
      let out : Result Error SearchResponse × Collected =
        continue (search_variant services request trace_id)
          (or_raise (lookup request.variant services.variants) key_error start) in
      let (variant, (s1, e1, h1)) =
        continue_ok (search_variant services request trace_id)
          (or_raise (lookup request.variant services.variants) key_error start) r out.1
          (ap (λ (x : Result Error SearchResponse). (x, out.1)) h) in
      let (manifest, (s2, e2, h2)) =
        continue_ok (search_manifest services request trace_id variant)
          (or_raise (lookup request.dataset services.datasets) key_error s1) r out.1 h1 in
      let chosen : Result Error IndexVersion =
        services.resolve_index request.dataset manifest.version manifest.default_split
          (dense_model services request variant.dense) in
      let (index, (s3, e3, h3)) =
        continue_ok (respond services request trace_id variant) (chosen, s2) r out.1 h2 in
      respond-IsRanking trace_id variant index r s3 out.1 laws h3

  -- Reranking does not change the depth: where a variant and the same variant without its rerank
  -- stage both return on an index, they return as many hits, given that the store and the sparse
  -- retriever return no document twice.
  pub respond-depth :
      (trace_id : ℕ) (variant : VariantConfig) (index : IndexVersion) (r plain : SearchResponse)
      (c c' c'' : Collected)
      → HasDistinctHits services
      → respond services request trace_id variant index c ≡ (ok r, c')
      → respond services request trace_id (record variant { rerank = none }) index c
        ≡ (ok plain, c'')
      → length r.hits ≡ length plain.hits
  respond-depth trace_id variant index r plain c c' c'' laws h k =
      let (out, (s, e, ids, ranks)) = respond-ok services request trace_id variant index r c c' h in
      let (out', (s', e', ids', ranks')) =
        respond-ok services request trace_id (record variant { rerank = none }) index plain c c''
          k in
      let (current, (s1, e1, same)) =
        ranking-SameDocuments services request variant index out c s laws e in
      let (current', (s1', e1', same')) =
        ranking-SameDocuments services request (record variant { rerank = none }) index out' c s'
          laws e' in
      let agree : current ≡ current' = ok_same current current' s1 s1' (sym e1 ∙ e1') in
      omega (
        arith,
        length-take-names ranked_id hit_id request.k r.hits out ids,
        length-take-names ranked_id hit_id request.k plain.hits out' ids',
        same.«2»,
        same'.«2»,
        ap length agree,
      )
    where
      ok_same :
          (x y : List StageHit) (s t : Collected)
          → ◌≡◌ {A = Result Error (List StageHit) × Collected} (ok x, s) (ok y, t)
          → x ≡ y
      ok_same x y s t h = cc
