-- ===== src/Retrieval/Pipeline/Tests.antt =====
-- A hybrid variant with reranking over three documents, and the theorems on searches there.
use rag_eval_platform.Prelude.{
  ℕ, ◌+◌, ◌/◌, ◌≡◌, refl, subst, true, none, some, List, [], ◌∷◌, arith, length, Distinct, names,
  Result, ok, err, Error,
}
use rag_eval_platform.Prelude.Sort.{sort}
use rag_eval_platform.Retrieval.{
  StageHit, rrf, VariantConfig, SearchRequest, sparse_retrieve, dense_embed_query, dense_retrieve,
  fuse, rerank, hydrate_results, SearchResponse,
}
use rag_eval_platform.Retrieval.Fusion.{reciprocal_rank_fusion, hit_id}
use rag_eval_platform.Retrieval.Pipeline.{
  IndexVersion, PersistedDocument, Services, Collected, rerank_stage, respond, search,
}
use rag_eval_platform.Retrieval.Pipeline.Rerank.{SameDocuments, rerank_stage-SameDocuments}
use rag_eval_platform.Retrieval.Pipeline.Sources.{HasDistinctHits}
use rag_eval_platform.Retrieval.Pipeline.Depth.{
  ranked_id, IsRanking, search-IsRanking, respond-depth,
}

abbrev hit : ℕ → ℕ → StageHit
hit d s = record { document_id = d; score = s }

abbrev sparse_hits : List StageHit
sparse_hits = hit 3 9 ∷ hit 1 8 ∷ hit 2 7 ∷ []

abbrev dense_hits : List StageHit
dense_hits = hit 1 6 ∷ hit 3 5 ∷ []

abbrev document : ℕ → PersistedDocument
document n = record { title = n; body = n }

-- scores by place, so that the last document comes first
abbrev place_scores : ℕ → List PersistedDocument → List ℕ
place_scores n [] = []
place_scores n (d ∷ ds) = n ∷ place_scores (n + 1) ds

abbrev hybrid : VariantConfig
hybrid = record {
  name = 7;
  sparse = some (record { k = 100 });
  dense = some (record { model = 4; k = 100 });
  fusion = some (record { method = rrf; k = 60 });
  rerank = some (record { model = 5; candidates = 3; keep = 1 });
}

abbrev index : IndexVersion
index = record {
  id = 1;
  corpus_version_id = 2;
  bm25_artifact_hash = 3;
  embedding_model = 4;
  normalized = true;
  dimension = 2;
  fingerprint = 6;
}

abbrev services : Services
services = record {
  ops = record { zero_score = 0; add = λ a b. a + b; reciprocal = λ n. 1000000 / n };
  datasets = (8, record { version = 1; default_split = 2 }) ∷ [];
  variants = (7, hybrid) ∷ [];
  resolve_index = λ name version split model. ok index;
  dense_search = λ i e k. ok dense_hits;
  load_documents = λ corpus ids. ok ((1, document 1) ∷ (2, document 2) ∷ (3, document 3) ∷ []);
  sparse_retriever = λ q a k. ok sparse_hits;
  query_embedders =
      (4, record { model_id = 4; normalized = true; encode_query = λ q. ok (1 ∷ 2 ∷ []) }) ∷ [];
  rerankers = (5, λ q ds. ok (place_scores 0 ds)) ∷ [];
  configuration_hash = λ v. v.name;
}

abbrev request : SearchRequest
request = record { query = 1; dataset = 8; variant = 7; k = 2 }

Distinct-ok :
    (xs ys : List StageHit)
    → Distinct (names hit_id xs)
    → ◌≡◌ {A = Result Error (List StageHit)} (ok xs) (ok ys)
    → Distinct (names hit_id ys)
Distinct-ok xs ys d h =
    let same : xs ≡ ys = ground (arith, h) in
    subst (λ (x : List StageHit). Distinct (names hit_id x)) same d

services-HasDistinctHits : HasDistinctHits services
services-HasDistinctHits = record {
  sparse_distinct = λ q a k hits h. Distinct-ok sparse_hits hits (ground arith) h;
  dense_distinct = λ i e k hits h. Distinct-ok dense_hits hits (ground arith) h;
}

abbrev empty_response : SearchResponse
empty_response = record {
  hits = [];
  timings = [];
  trace_id = 0;
  variant_hash = 0;
  index_fingerprint = 0;
}

response : SearchResponse
unfolding search reciprocal_rank_fusion sort
response = elim (search services request 9) [ ok r ↦ r | err e ↦ empty_response ]

response_result : search services request 9 ≡ ok response
unfolding response search reciprocal_rank_fusion sort
response_result = refl

-- the last candidate is promoted, and the fused order follows
response_ids : names ranked_id response.hits ≡ 2 ∷ 1 ∷ []
unfolding response
response_ids = refl

response_timings :
    response.timings
    ≡ sparse_retrieve ∷ dense_embed_query ∷ dense_retrieve ∷ fuse ∷ rerank ∷ hydrate_results ∷ []
unfolding response
response_timings = refl

search-IsRanking_example : IsRanking 2 response.hits
search-IsRanking_example =
    search-IsRanking services request 9 response services-HasDistinctHits response_result

abbrev nothing : Collected
nothing = record { timings = []; stage_scores = [] }

outcome : VariantConfig → Result Error SearchResponse × Collected
unfolding reciprocal_rank_fusion sort
outcome variant = respond services request 9 variant index nothing

abbrev response_of : Result Error SearchResponse × Collected → SearchResponse
response_of (ok r, c) = r
response_of (err e, c) = empty_response

reranked : SearchResponse
reranked = response_of (outcome hybrid)

plain : SearchResponse
plain = response_of (outcome (record hybrid { rerank = none }))

reranked_result :
    respond services request 9 hybrid index nothing ≡ (ok reranked, (outcome hybrid).1)
unfolding reranked outcome reciprocal_rank_fusion sort
reranked_result = refl

plain_result :
    respond services request 9 (record hybrid { rerank = none }) index nothing
    ≡ (ok plain, (outcome (record hybrid { rerank = none })).1)
unfolding plain outcome reciprocal_rank_fusion sort
plain_result = refl

respond-depth_example : length reranked.hits ≡ length plain.hits
respond-depth_example =
    respond-depth services request 9 hybrid index reranked plain nothing (outcome hybrid).1
      (outcome (record hybrid { rerank = none })).1 services-HasDistinctHits reranked_result
      plain_result

abbrev promoted : List StageHit
promoted = hit 2 2 ∷ hit 3 9 ∷ hit 1 8 ∷ []

rerank_result : rerank_stage services request index hybrid.rerank sparse_hits nothing ≡ (
  ok promoted,
  record {
    timings = rerank ∷ [];
    stage_scores = (2, (3, 2) ∷ []) ∷ (1, (3, 1) ∷ []) ∷ (3, (3, 0) ∷ []) ∷ [];
  },
)
unfolding sort
rerank_result = refl

rerank_stage-SameDocuments_example : SameDocuments sparse_hits promoted
rerank_stage-SameDocuments_example =
    rerank_stage-SameDocuments services request index hybrid.rerank sparse_hits promoted nothing
      (record {
        timings = rerank ∷ [];
        stage_scores = (2, (3, 2) ∷ []) ∷ (1, (3, 1) ∷ []) ∷ (3, (3, 0) ∷ []) ∷ [];
      })
      (ground arith) rerank_result
