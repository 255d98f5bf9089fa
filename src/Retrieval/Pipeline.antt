-- ===== src/Retrieval/Pipeline.antt =====
-- The retrieval pipeline: src/ragops/retrieval/pipeline.py. What a search reads (the store, the
-- retriever, the embedders and rerankers) is a record of functions, one snapshot of the services
-- for the one search; what it collects is a state.
pub mod Rerank
pub mod Sources
pub mod Depth
mod Tests
use rag_eval_platform.Prelude.{
  ℕ, ◌+◌, Bool, not, ◌&&◌, ◌||◌, Option, none, some, List, [], ◌∷◌, ◌++◌, ltb, ◌==◌, bool_eq,
  length, take, filter, contains, names, Result, ok, Exec, pure, raise, gets, or_raise, ◌>>=◌, ◌>>◌,
  raise_if, Error, value_error, key_error, compatible_index_not_found,
}
use rag_eval_platform.Prelude.Dict.{Dict, lookup, lookup_or, insert}
use rag_eval_platform.Prelude.Sort.{sort}
use rag_eval_platform.Retrieval.{
  FloatOps, StageHit, SparseStageConfig, DenseStageConfig, FusionMethod, rrf, weighted,
  FusionStageConfig, RerankStageConfig, VariantConfig, SearchRequest, RankedHit, Stage,
  sparse_retrieve, dense_embed_query, dense_retrieve, fuse, rerank, hydrate_results, SearchResponse,
}
use rag_eval_platform.Retrieval.Fusion.{reciprocal_rank_fusion, hit_id}

pub record DatasetManifest : Type 0 where
  pub version : ℕ
  pub default_split : ℕ

pub record IndexVersion : Type 0 where
  pub id : ℕ
  pub corpus_version_id : ℕ
  pub bm25_artifact_hash : ℕ
  pub embedding_model : ℕ
  pub normalized : Bool
  pub dimension : ℕ
  pub fingerprint : ℕ

pub record PersistedDocument : Type 0 where
  pub title : ℕ
  pub body : ℕ

pub record QueryEmbedder : Type 0 where
  pub model_id : ℕ
  pub normalized : Bool
  pub encode_query : ℕ → Result Error (List ℕ)

abbrev Reranker : Type 0
Reranker = ℕ → List PersistedDocument → Result Error (List ℕ)

-- `RetrievalPipeline.__init__`, with the float arithmetic and the digest of a variant
pub record Services : Type 0 where
  pub ops : FloatOps
  pub datasets : Dict DatasetManifest
  pub variants : Dict VariantConfig
  pub resolve_index : ℕ → ℕ → ℕ → Option ℕ → Result Error IndexVersion
  pub dense_search : ℕ → List ℕ → ℕ → Result Error (List StageHit)
  pub load_documents : ℕ → List ℕ → Result Error (Dict PersistedDocument)
  pub sparse_retriever : ℕ → ℕ → ℕ → Result Error (List StageHit)
  pub query_embedders : Dict QueryEmbedder
  pub rerankers : Dict Reranker
  pub configuration_hash : VariantConfig → ℕ

-- `timings` and `stage_scores` of a search
pub record Collected : Type 0 where
  pub timings : List Stage
  pub stage_scores : Dict (Dict ℕ)

abbrev Search : Type 0 → Type 0
Search A = Exec Collected Error A

abbrev pub call : {A : Type 0} → Result Error A → Search A
call r c = (r, c)

-- `_stage`: the timing is added whether the body returns or raises.
abbrev pub in_stage : {A : Type 0} → Stage → Search A → Search A
in_stage name body c =
    let (r, after) = body c in (r, record after { timings = after.timings ++ name ∷ [] })

-- the names of the stage scores
abbrev pub sparse_score : ℕ
sparse_score = 0

abbrev pub dense_score : ℕ
dense_score = 1

abbrev pub fused_score : ℕ
fused_score = 2

abbrev rerank_score : ℕ
rerank_score = 3

-- the loop of `_record_scores`
abbrev score_hits : ℕ → List StageHit → Dict (Dict ℕ) → Dict (Dict ℕ)
score_hits name [] scores = scores
score_hits name (h ∷ hits) scores =
    score_hits name hits
      (insert h.document_id (insert name h.score (lookup_or h.document_id [] scores)) scores)

abbrev record_scores : ℕ → List StageHit → Search Unit
record_scores name hits c = (ok tt, record c { stage_scores = score_hits name hits c.stage_scores })

module _ (services : Services) (request : SearchRequest) where
  abbrev pub keep_hits : ℕ → List StageHit → Search (List StageHit)
  keep_hits name hits = record_scores name hits >> pure hits

  abbrev pub sparse_stage : IndexVersion → Option SparseStageConfig → Search (List StageHit)
  sparse_stage index none = pure []
  sparse_stage index (some stage) =
      in_stage sparse_retrieve
        (call (services.sparse_retriever request.query index.bm25_artifact_hash stage.k))
      >>= keep_hits sparse_score

  -- the embedder and the index were built alike
  abbrev pub embedder_matches : QueryEmbedder → IndexVersion → List ℕ → Bool
  embedder_matches embedder index embedding =
      embedder.model_id == index.embedding_model
      && bool_eq embedder.normalized index.normalized
      && length embedding == index.dimension

  abbrev pub search_dense : IndexVersion → ℕ → List ℕ → Unit {0} → Search (List StageHit)
  search_dense index k embedding checked =
      in_stage dense_retrieve (call (services.dense_search index.id embedding k))
      >>= keep_hits dense_score

  abbrev pub check_embedding : IndexVersion → ℕ → QueryEmbedder → List ℕ → Search (List StageHit)
  check_embedding index k embedder embedding =
      raise_if (not (embedder_matches embedder index embedding)) compatible_index_not_found
      >>= search_dense index k embedding

  abbrev pub embed_query : IndexVersion → ℕ → QueryEmbedder → Search (List StageHit)
  embed_query index k embedder =
      in_stage dense_embed_query (call (embedder.encode_query request.query))
      >>= check_embedding index k embedder

  abbrev pub dense_stage : IndexVersion → Option DenseStageConfig → Search (List StageHit)
  dense_stage index none = pure []
  dense_stage index (some stage) =
      or_raise (lookup stage.model services.query_embedders) compatible_index_not_found
      >>= embed_query index stage.k

  -- `sparse_hits or dense_hits`
  abbrev or_else : List StageHit → List StageHit → List StageHit
  or_else [] dense_hits = dense_hits
  or_else (h ∷ hits) dense_hits = h ∷ hits

  abbrev pub fuse_by : FusionMethod → ℕ → List StageHit → List StageHit → Search (List StageHit)
  fuse_by weighted k sparse_hits dense_hits = raise value_error
  fuse_by rrf k sparse_hits dense_hits =
      in_stage fuse (call (reciprocal_rank_fusion services.ops (sparse_hits ∷ dense_hits ∷ []) k))
      >>= keep_hits fused_score

  abbrev pub fusion_stage :
      Option FusionStageConfig → List StageHit → List StageHit → Search (List StageHit)
  fusion_stage none sparse_hits dense_hits = pure (or_else sparse_hits dense_hits)
  fusion_stage (some stage) sparse_hits dense_hits =
      fuse_by stage.method stage.k sparse_hits dense_hits

  -- `[documents[document_id] for document_id in ids]`
  abbrev pub in_order : Dict PersistedDocument → List ℕ → Option (List PersistedDocument)
  in_order documents [] = some []
  in_order documents (i ∷ ids) = elim (lookup i documents) [
    | none ↦ none
    | some d ↦ elim (in_order documents ids) [ none ↦ none | some ds ↦ some (d ∷ ds) ]
  ]

  -- `zip(candidate_hits, scores)`, with the scores put in
  abbrev pub rescored : List StageHit → List ℕ → List StageHit
  rescored [] scores = []
  rescored (h ∷ hits) [] = []
  rescored (h ∷ hits) (s ∷ scores) =
      record { document_id = h.document_id; score = s } ∷ rescored hits scores

  -- `original_ranks`, from the given rank on
  abbrev pub original_ranks : ℕ → List StageHit → Dict ℕ → Dict ℕ
  original_ranks rank [] ranks = ranks
  original_ranks rank (h ∷ hits) ranks =
      original_ranks (rank + 1) hits (insert h.document_id rank ranks)

  -- the sort key of the reranking
  abbrev pub reranks_before : Dict ℕ → StageHit → StageHit → Bool
  reranks_before ranks a b =
      let m : ℕ = lookup_or a.document_id 0 ranks in
      let n : ℕ = lookup_or b.document_id 0 ranks in
      ltb b.score a.score
      || (a.score == b.score && (ltb m n || (m == n && ltb a.document_id b.document_id)))

  abbrev pub reorder : List StageHit → List ℕ → List StageHit
  reorder candidates scores =
      sort (reranks_before (original_ranks 0 candidates [])) (rescored candidates scores)

  -- the promoted hits, and below them the others in the order they had
  abbrev pub promote : ℕ → List StageHit → List StageHit → List StageHit
  promote keep reranked current =
      take keep reranked
      ++ filter (λ h. not (contains h.document_id (names hit_id (take keep reranked)))) current

  abbrev pub accept_scores : List StageHit → List ℕ → Search (List StageHit)
  accept_scores candidates scores =
      raise_if (not (length scores == length candidates)) value_error
      >> pure (reorder candidates scores)

  abbrev pub score_documents :
      List StageHit → Reranker → List PersistedDocument → Search (List StageHit)
  score_documents candidates score documents =
      call (score request.query documents) >>= accept_scores candidates

  abbrev pub score_candidates :
      List StageHit → Dict PersistedDocument → Reranker → Search (List StageHit)
  score_candidates candidates documents score =
      or_raise (in_order documents (names hit_id candidates)) key_error
      >>= score_documents candidates score

  abbrev pub score_loaded : ℕ → List StageHit → Dict PersistedDocument → Search (List StageHit)
  score_loaded model candidates documents =
      or_raise (lookup model services.rerankers) compatible_index_not_found
      >>= score_candidates candidates documents

  -- the body of the `rerank` stage
  abbrev pub rerank_candidates : IndexVersion → ℕ → List StageHit → Search (List StageHit)
  rerank_candidates index model candidates =
      call (services.load_documents index.corpus_version_id (names hit_id candidates))
      >>= score_loaded model candidates

  abbrev pub promote_reranked :
      RerankStageConfig → List StageHit → List StageHit → Search (List StageHit)
  promote_reranked stage current reranked =
      record_scores rerank_score reranked >> pure (promote stage.keep reranked current)

  abbrev pub rerank_stage :
      IndexVersion → Option RerankStageConfig → List StageHit → Search (List StageHit)
  rerank_stage index none current = pure current
  rerank_stage index (some stage) current =
      in_stage rerank (rerank_candidates index stage.model (take stage.candidates current))
      >>= promote_reranked stage current

  abbrev pub with_hit :
      ℕ
      → StageHit
      → Option PersistedDocument
      → Option (Dict ℕ)
      → Option (List RankedHit)
      → Option (List RankedHit)
  with_hit rank h (some d) (some own) (some rest) = some (
      record {
        document_id = h.document_id;
        title = d.title;
        body = d.body;
        rank = rank;
        score = h.score;
        stage_scores = own;
      }
      ∷ rest)
  with_hit rank h (some d) (some own) none = none
  with_hit rank h (some d) none rest = none
  with_hit rank h none own rest = none

  -- the hits of the response, from the given rank on
  abbrev pub hydrated :
      Dict PersistedDocument → Dict (Dict ℕ) → ℕ → List StageHit → Option (List RankedHit)
  hydrated documents scores rank [] = some []
  hydrated documents scores rank (h ∷ hits) =
      with_hit rank h (lookup h.document_id documents) (lookup h.document_id scores)
        (hydrated documents scores (rank + 1) hits)

  abbrev pub hydrate_from : List StageHit → Dict PersistedDocument → Search (List RankedHit)
  hydrate_from final_hits documents c =
      or_raise (hydrated documents c.stage_scores 1 final_hits) key_error c

  abbrev pub hydrate : IndexVersion → List StageHit → Search (List RankedHit)
  hydrate index final_hits =
      in_stage hydrate_results
        (call (services.load_documents index.corpus_version_id (names hit_id final_hits)))
      >>= hydrate_from final_hits

  -- the hits before any reranking
  abbrev pub retrieve_dense : VariantConfig → IndexVersion → List StageHit → Search (List StageHit)
  retrieve_dense variant index sparse_hits =
      dense_stage index variant.dense >>= fusion_stage variant.fusion sparse_hits

  abbrev pub retrieved : VariantConfig → IndexVersion → Search (List StageHit)
  retrieved variant index = sparse_stage index variant.sparse >>= retrieve_dense variant index

  abbrev pub ranking : VariantConfig → IndexVersion → Search (List StageHit)
  ranking variant index = retrieved variant index >>= rerank_stage index variant.rerank

  abbrev pub respond_with :
      ℕ → VariantConfig → IndexVersion → List RankedHit → Search SearchResponse
  respond_with trace_id variant index hits = gets (λ (c : Collected). record {
    hits = hits;
    timings = c.timings;
    trace_id = trace_id;
    variant_hash = services.configuration_hash variant;
    index_fingerprint = index.fingerprint;
  })

  abbrev pub respond_ranked :
      ℕ → VariantConfig → IndexVersion → List StageHit → Search SearchResponse
  respond_ranked trace_id variant index current =
      hydrate index (take request.k current) >>= respond_with trace_id variant index

  abbrev pub respond : ℕ → VariantConfig → IndexVersion → Search SearchResponse
  respond trace_id variant index = ranking variant index >>= respond_ranked trace_id variant index

  abbrev pub dense_model : Option DenseStageConfig → Option ℕ
  dense_model none = none
  dense_model (some stage) = some stage.model

  abbrev pub search_manifest : ℕ → VariantConfig → DatasetManifest → Search SearchResponse
  search_manifest trace_id variant manifest =
      call (
        services.resolve_index request.dataset manifest.version manifest.default_split
          (dense_model variant.dense))
      >>= respond trace_id variant

  abbrev pub search_variant : ℕ → VariantConfig → Search SearchResponse
  search_variant trace_id variant =
      or_raise (lookup request.dataset services.datasets) key_error
      >>= search_manifest trace_id variant

  -- `RetrievalPipeline.search`
  pub search : ℕ → Result Error SearchResponse
  search trace_id =
      let start : Collected = record { timings = []; stage_scores = [] } in
      ((or_raise (lookup request.variant services.variants) key_error >>= search_variant trace_id)
        start).0
