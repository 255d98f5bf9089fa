-- ===== src/Generation/Providers.antt =====
-- What stands around a provider's generator: the single repair of src/ragops/generation/repair.py
-- and the cache of src/ragops/generation/cache.py over src/ragops/persistence/generation_cache.py.
-- A generator is a record of its identity and a method on some state, such as what the provider
-- has billed. SHA-256 over canonical JSON is a parameter.
pub mod Usage
pub mod Replay
use rag_eval_platform.Prelude.{
  ℕ, Bool, true, not, ◌&&◌, Option, none, some, ◌∷◌, ◌++◌, ◌==◌, if◌then◌else◌, Result, ok, err,
  Exec, value_error,
}
use rag_eval_platform.Prelude.Text.{Text, codes}
use rag_eval_platform.Prelude.Dict.{Dict, lookup, insert}
use rag_eval_platform.Generation.{
  TokenUsage, no_usage, GenerationRequest, GenerationResult, FailureKind, schema, refused,
  provider_failed, timed_out, GenerationFailure, Raised, failed, broke, add_usage,
}

pub record Generator (S : Type 0) : Type 0 where
  pub provider : ℕ
  pub model : ℕ
  pub configuration_hash : ℕ
  pub generate : GenerationRequest → Exec S Raised GenerationResult

-- "\n\n<repair_instruction>…</repair_instruction>"
abbrev repair_instruction : Text
repair_instruction =
    10
    ∷ 10
    ∷ codes
        "<repair_instruction>Return one complete value matching the requested schema. Do not add prose outside it.</repair_instruction>"

abbrev pub repair_request : GenerationRequest → GenerationRequest
repair_request request = record request { user_prompt = request.user_prompt ++ repair_instruction }

module _ {S : Type 0} where
  -- the outcome of the second call, with the usage of the first added
  abbrev pub after_repair :
      TokenUsage → Result Raised GenerationResult × S → Result Raised GenerationResult × S
  after_repair first (ok repaired, s) =
      (ok (record repaired { usage = add_usage first repaired.usage }), s)
  after_repair first (err (failed second), s) =
      (err (failed (record second { usage = add_usage first second.usage })), s)
  after_repair first (err (broke e), s) = (err (broke e), s)

  -- `except GenerationSchemaError`
  abbrev pub on_failure :
      Generator S
      → GenerationRequest
      → FailureKind
      → GenerationFailure
      → Exec S Raised GenerationResult
  on_failure g request schema first s =
      after_repair first.usage (g.generate (repair_request request) s)
  on_failure g request refused first s = (err (failed first), s)
  on_failure g request provider_failed first s = (err (failed first), s)
  on_failure g request timed_out first s = (err (failed first), s)

  abbrev pub after_first :
      Generator S
      → GenerationRequest
      → Result Raised GenerationResult × S
      → Result Raised GenerationResult × S
  after_first g request (ok result, s) = (ok result, s)
  after_first g request (err (failed first), s) = on_failure g request first.kind first s
  after_first g request (err (broke e), s) = (err (broke e), s)

  -- `RepairingGenerator`
  pub repairing : Generator S → Generator S
  repairing g = record g { generate = λ request s. after_first g request (g.generate request s) }

-- the digests of a prompt (`rendered_prompt_hash`) and of a cache key
pub record Digests : Type 0 where
  pub prompt : ℕ → Text → Text → ℕ
  pub key : ℕ → ℕ → ℕ → ℕ → ℕ → ℕ

abbrev pub rendered_prompt_hash : Digests → GenerationRequest → ℕ
rendered_prompt_hash d request =
    d.prompt request.prompt_version request.system_prompt request.user_prompt

abbrev pub Cache : Type 0
Cache = Dict GenerationResult

-- `SqlAlchemyGenerationCache.put`: an insert that does nothing where the key is taken
abbrev pub put : ℕ → GenerationResult → Cache → Cache
put key result cache = elim (lookup key cache) [ none ↦ insert key result cache | some old ↦ cache ]

module _ {S : Type 0} (d : Digests) (g : Generator S) where
  -- `build_generation_cache_key`
  abbrev pub build_generation_cache_key : GenerationRequest → ℕ
  build_generation_cache_key request =
      d.key g.configuration_hash g.model request.prompt_version g.provider
        (rendered_prompt_hash d request)

  -- the test of `_validate_provenance`
  abbrev pub has_provenance : GenerationResult → Bool
  has_provenance result =
      result.provider == g.provider
      && result.model == g.model
      && result.generator_configuration_hash == g.configuration_hash

-- what a hit returns
abbrev pub as_hit : GenerationResult → GenerationResult
as_hit cached = record cached { usage = no_usage; provider_request_id = none; cache_hit = true }

module _ {S : Type 0} (d : Digests) (g : Generator S) where
  abbrev pub store_result :
      ℕ → Cache → Result Raised GenerationResult × S → Result Raised GenerationResult × (Cache × S)
  store_result key cache (err e, s) = (err e, (cache, s))
  store_result key cache (ok result, s) =
      if not (has_provenance d g result)
      then (err (broke value_error), (cache, s))
      else (if result.cache_hit
          then (err (broke value_error), (cache, s))
          else (ok result, (put key result cache, s)))

  abbrev pub on_lookup :
      GenerationRequest → ℕ → Option GenerationResult → Exec (Cache × S) Raised GenerationResult
  on_lookup request key (some cached) s =
      if has_provenance d g cached then (ok (as_hit cached), s) else (err (broke value_error), s)
  on_lookup request key none (cache, s) = store_result key cache (g.generate request s)

  -- `CachingGenerator`
  unfoldable pub caching : Generator (Cache × S)
  caching = record {
    provider = g.provider;
    model = g.model;
    configuration_hash = g.configuration_hash;
    generate = λ request s.
        on_lookup request (build_generation_cache_key d g request)
          (lookup (build_generation_cache_key d g request) s.0) s;
  }
