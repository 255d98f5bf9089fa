-- ===== src/Retrieval/Pipeline/Sources.antt =====
-- No stage of a search returns a document twice (src/ragops/retrieval/pipeline.py).
use rag_eval_platform.Prelude.{
  ℕ, ◌≡◌, subst, inl, inr, not, Option, none, some, List, [], ◌∷◌, arith, Distinct, names, Result,
  ok, or_raise, continue_ok, raise_if, Error, compatible_index_not_found,
}
use rag_eval_platform.Prelude.Dict.{lookup}
use rag_eval_platform.Retrieval.{
  StageHit, SparseStageConfig, DenseStageConfig, FusionMethod, rrf, weighted, FusionStageConfig,
  VariantConfig, SearchRequest, sparse_retrieve, dense_embed_query, dense_retrieve, fuse,
}
use rag_eval_platform.Retrieval.Fusion.{reciprocal_rank_fusion, hit_id}
use rag_eval_platform.Retrieval.Pipeline.{
  IndexVersion, Services, Collected, call, in_stage, sparse_stage, dense_stage, fusion_stage,
  fuse_by, embedder_matches, keep_hits, search_dense, check_embedding, embed_query, retrieve_dense,
  sparse_score, dense_score, fused_score, retrieved,
}
use rag_eval_platform.Retrieval.Fusion.Order.{fusion_lem}

-- What a search relies on of the store and of the sparse retriever: they return no document twice.
pub record HasDistinctHits (services : Services) : Type 0 where
  pub sparse_distinct :
      (query artifact k : ℕ) (hits : List StageHit)
      → services.sparse_retriever query artifact k ≡ ok hits
      → Distinct (names hit_id hits)
  pub dense_distinct :
      (index : ℕ) (embedding : List ℕ) (k : ℕ) (hits : List StageHit)
      → services.dense_search index embedding k ≡ ok hits
      → Distinct (names hit_id hits)

module _ (services : Services) (request : SearchRequest) (laws : HasDistinctHits services) where
  sparse_stage-Distinct :
      (index : IndexVersion) (stage : Option SparseStageConfig) (hits : List StageHit)
      (c c' : Collected)
      → sparse_stage services request index stage c ≡ (ok hits, c')
      → Distinct (names hit_id hits)
  sparse_stage-Distinct index none hits c c' h = ground (arith, h)
  sparse_stage-Distinct index (some stage) hits c c' h =
      let found : Result Error (List StageHit) =
        services.sparse_retriever request.query index.bm25_artifact_hash stage.k in
      let (got, (s, e, h1)) =
        continue_ok (keep_hits services request sparse_score)
          (in_stage sparse_retrieve (call found) c) hits c' h in
      let same : got ≡ hits = ground (arith, h1) in
      laws.sparse_distinct request.query index.bm25_artifact_hash stage.k hits
        (ground (arith, e, same))

  dense_stage-Distinct :
      (index : IndexVersion) (stage : Option DenseStageConfig) (hits : List StageHit)
      (c c' : Collected)
      → dense_stage services request index stage c ≡ (ok hits, c')
      → Distinct (names hit_id hits)
  dense_stage-Distinct index none hits c c' h = ground (arith, h)
  dense_stage-Distinct index (some stage) hits c c' h =
      let (embedder, (s1, e1, h1)) =
        continue_ok (embed_query services request index stage.k)
          (or_raise (lookup stage.model services.query_embedders) compatible_index_not_found c) hits
          c' h in
      let (embedding, (s2, e2, h2)) =
        continue_ok (check_embedding services request index stage.k embedder)
          (in_stage dense_embed_query (call (embedder.encode_query request.query)) s1) hits c' h1 in
      let (checked, (s3, e3, h3)) =
        continue_ok (search_dense services request index stage.k embedding)
          (raise_if (not (embedder_matches services request embedder index embedding))
            compatible_index_not_found s2)
          hits c' h2 in
      let found : Result Error (List StageHit) = services.dense_search index.id embedding stage.k in
      let (got, (s4, e4, h4)) =
        continue_ok (keep_hits services request dense_score)
          (in_stage dense_retrieve (call found) s3) hits c' h3 in
      let same : got ≡ hits = ground (arith, h4) in
      laws.dense_distinct index.id embedding stage.k hits (ground (arith, e4, same))

  fused-Distinct :
      (rankings : List (List StageHit)) (k : ℕ) (hits : List StageHit)
      → reciprocal_rank_fusion services.ops rankings k ≡ ok hits
      → Distinct (names hit_id hits)
  fused-Distinct rankings k hits e = elim (fusion_lem services.ops rankings k) [
    | inl (z, raised) ↦ cc
    | inr (positive, (f, found, holds, sorted, rest)) ↦
        let same : f ≡ hits = ground (arith, found, e) in
        subst (λ (x : List StageHit). Distinct (names hit_id x)) same holds.0
  ]

  fuse_by-Distinct :
      (method : FusionMethod) (k : ℕ) (sparse_hits dense_hits hits : List StageHit)
      (c c' : Collected)
      → fuse_by services request method k sparse_hits dense_hits c ≡ (ok hits, c')
      → Distinct (names hit_id hits)
  fuse_by-Distinct weighted k sparse_hits dense_hits hits c c' h = cc
  fuse_by-Distinct rrf k sparse_hits dense_hits hits c c' h =
      let fusion : Result Error (List StageHit) =
        reciprocal_rank_fusion services.ops (sparse_hits ∷ dense_hits ∷ []) k in
      let (got, (s, e, h1)) =
        continue_ok (keep_hits services request fused_score) (in_stage fuse (call fusion) c) hits c'
          h in
      let same : got ≡ hits = ground (arith, h1) in
      fused-Distinct (sparse_hits ∷ dense_hits ∷ []) k hits (ground (arith, e, same))

  fusion_stage-Distinct :
      (stage : Option FusionStageConfig) (sparse_hits dense_hits hits : List StageHit)
      (c c' : Collected)
      → Distinct (names hit_id sparse_hits)
      → Distinct (names hit_id dense_hits)
      → fusion_stage services request stage sparse_hits dense_hits c ≡ (ok hits, c')
      → Distinct (names hit_id hits)
  fusion_stage-Distinct none [] dense_hits hits c c' d e h =
      let same : dense_hits ≡ hits = ground (arith, h) in
      subst (λ (x : List StageHit). Distinct (names hit_id x)) same e
  fusion_stage-Distinct none (x ∷ sparse_hits) dense_hits hits c c' d e h =
      let same : x ∷ sparse_hits ≡ hits = ground (arith, h) in
      subst (λ (x : List StageHit). Distinct (names hit_id x)) same d
  fusion_stage-Distinct (some stage) sparse_hits dense_hits hits c c' d e h =
      fuse_by-Distinct stage.method stage.k sparse_hits dense_hits hits c c' h

  pub retrieved-Distinct :
      (variant : VariantConfig) (index : IndexVersion) (hits : List StageHit) (c c' : Collected)
      → retrieved services request variant index c ≡ (ok hits, c')
      → Distinct (names hit_id hits)
  retrieved-Distinct variant index hits c c' h =
      let (sparse_hits, (s1, e1, h1)) =
        continue_ok (retrieve_dense services request variant index)
          (sparse_stage services request index variant.sparse c) hits c' h in
      let (dense_hits, (s2, e2, h2)) =
        continue_ok (fusion_stage services request variant.fusion sparse_hits)
          (dense_stage services request index variant.dense s1) hits c' h1 in
      fusion_stage-Distinct variant.fusion sparse_hits dense_hits hits s2 c'
        (sparse_stage-Distinct index variant.sparse sparse_hits c s1 e1)
        (dense_stage-Distinct index variant.dense dense_hits s1 s2 e2) h2
