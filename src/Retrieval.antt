-- ===== src/Retrieval.antt =====
-- The contracts of retrieval: src/ragops/contracts/retrieval.py and src/ragops/retrieval/types.py. A
-- score is a finite float; it stands here as the number that codes it in order, so that comparing
-- codes compares floats, and the arithmetic on floats is a parameter.
pub mod Fusion
pub mod Pipeline
use rag_eval_platform.Prelude.{
  ℕ, ◌≤◌, ◌<◌, Bool, true, not, ◌&&◌, ◌||◌, Option, none, some, List, ltb, leb, ◌==◌, is_some,
}
use rag_eval_platform.Prelude.Dict.{Dict}

-- the float operations of the fusion: 0.0, `+`, and `1.0 / n`
pub record FloatOps : Type 0 where
  pub zero_score : ℕ
  pub add : ℕ → ℕ → ℕ
  pub reciprocal : ℕ → ℕ

-- What IEEE arithmetic promises of them: rounded addition and division are monotone, and adding a
-- positive number does not lower a sum.
pub record IsMonotone (ops : FloatOps) : Type 0 where
  pub add_mono : (a b c d : ℕ) → a ≤ b → c ≤ d → ops.add a c ≤ ops.add b d
  pub reciprocal_anti : (m n : ℕ) → 0 < m → m ≤ n → ops.reciprocal n ≤ ops.reciprocal m
  pub add_grows : (a n : ℕ) → a ≤ ops.add a (ops.reciprocal n)

pub record StageHit : Type 0 where
  pub document_id : ℕ
  pub score : ℕ

pub record SparseStageConfig : Type 0 where
  pub k : ℕ

pub record DenseStageConfig : Type 0 where
  pub model : ℕ
  pub k : ℕ

pub data FusionMethod : Type 0 where
  rrf weighted : FusionMethod

pub record FusionStageConfig : Type 0 where
  pub method : FusionMethod
  pub k : ℕ

pub record RerankStageConfig : Type 0 where
  pub model : ℕ
  pub candidates : ℕ
  pub keep : ℕ

pub record VariantConfig : Type 0 where
  pub name : ℕ
  pub sparse : Option SparseStageConfig
  pub dense : Option DenseStageConfig
  pub fusion : Option FusionStageConfig
  pub rerank : Option RerankStageConfig

abbrev rerank_is_valid : Option RerankStageConfig → Bool
rerank_is_valid none = true
rerank_is_valid (some r) = leb r.keep r.candidates

-- `validate_pipeline` and `validate_candidate_window`
abbrev variant_is_valid : VariantConfig → Bool
variant_is_valid v =
    (is_some v.sparse || is_some v.dense)
    && (not (is_some v.fusion) || (is_some v.sparse && is_some v.dense))
    && (not (is_some v.sparse && is_some v.dense) || is_some v.fusion)
    && rerank_is_valid v.rerank

pub record SearchRequest : Type 0 where
  pub query : ℕ
  pub dataset : ℕ
  pub variant : ℕ
  pub k : ℕ

pub record RankedHit : Type 0 where
  pub document_id : ℕ
  pub title : ℕ
  pub body : ℕ
  pub rank : ℕ
  pub score : ℕ
  pub stage_scores : Dict ℕ

-- A timing is the name of its stage; the duration is left out.
pub data Stage : Type 0 where
  sparse_retrieve dense_embed_query dense_retrieve fuse rerank hydrate_results : Stage

pub record SearchResponse : Type 0 where
  pub hits : List RankedHit
  pub timings : List Stage
  pub trace_id : ℕ
  pub variant_hash : ℕ
  pub index_fingerprint : ℕ

-- the sort key `(-score, document_id)`: a higher score first, then the smaller id
abbrev pub ranks_before : StageHit → StageHit → Bool
ranks_before a b = ltb b.score a.score || (a.score == b.score && ltb a.document_id b.document_id)
