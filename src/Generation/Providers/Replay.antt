-- ===== src/Generation/Providers/Replay.antt =====
-- The cache replays what it has stored (src/ragops/generation/cache.py).
use rag_eval_platform.Prelude.{
  ℕ, ◌≡◌, refl, subst, inl, inr, Bool, true, false, not, Option, none, some, arith, if◌then◌else◌,
  Bool-cases, Result, ok, err, value_error,
}
use rag_eval_platform.Prelude.Dict.{lookup, lookup-insert}
use rag_eval_platform.Generation.{GenerationRequest, GenerationResult, Raised, broke}
use rag_eval_platform.Generation.Providers.{
  Generator, Digests, Cache, put, build_generation_cache_key, has_provenance, as_hit, store_result,
  on_lookup, caching,
}

-- the same prompt, perhaps under another trace
abbrev SamePrompt : GenerationRequest → GenerationRequest → Type 0
SamePrompt a b =
    (a.system_prompt ≡ b.system_prompt)
    × (a.user_prompt ≡ b.user_prompt)
    × (a.prompt_version ≡ b.prompt_version)

key-same :
    {S : Type 0} (d : Digests) (g : Generator S) (a b : GenerationRequest)
    → SamePrompt a b
    → build_generation_cache_key d g b ≡ build_generation_cache_key d g a
key-same d g a b h = ground arith

lookup-put :
    (key : ℕ) (r : GenerationResult) (cache : Cache)
    → lookup key cache ≡ none
    → lookup key (put key r cache) ≡ some r
lookup-put key r cache h = ground (arith, lookup-insert key key r cache)

-- the result as a hit has it
abbrev pub free_hit : GenerationResult → GenerationResult
free_hit result = record {
  output = result.output;
  usage = record {
    input_tokens = 0;
    output_tokens = 0;
    cached_input_tokens = 0;
    cache_write_input_tokens = 0;
    cost_usd = 0;
  };
  provider = result.provider;
  model = result.model;
  generator_configuration_hash = result.generator_configuration_hash;
  provider_request_id = none;
  cache_hit = true;
}

-- what a call that returned has left in the cache
abbrev Left :
    {S : Type 0} → Digests → Generator S → ℕ → Result Raised GenerationResult × (Cache × S) → Type 0
Left d g key (ok r, s) =
    (c : GenerationResult) × (lookup key s.0 ≡ some c)
    × (has_provenance d g c ≡ true)
    × (as_hit c ≡ as_hit r)
Left d g key (err e, s) = Unit

module _ {S : Type 0} (d : Digests) (g : Generator S) where
  Left-store_result :
      (key : ℕ) (cache : Cache) (out : Result Raised GenerationResult × S)
      → lookup key cache ≡ none
      → Left d g key (store_result d g key cache out)
  Left-store_result key cache (err e, s) h = tt
  Left-store_result key cache (ok r, s) h = checked (has_provenance d g r) refl
    where
      fresh :
          has_provenance d g r ≡ true
          → (hit : Bool)
          → Left d g key
              (if hit then (err (broke value_error), (cache, s)) else (ok r, (put key r cache, s)))
      fresh p true = tt
      fresh p false = (r, lookup-put key r cache h, p, refl)

      checked :
          (b : Bool)
          → has_provenance d g r ≡ b
          → Left d g key (
              if not b
              then (err (broke value_error), (cache, s))
              else (if r.cache_hit
                  then (err (broke value_error), (cache, s))
                  else (ok r, (put key r cache, s))))
      checked true p = fresh p r.cache_hit
      checked false p = tt

  Left-on_lookup :
      (request : GenerationRequest) (key : ℕ) (found : Option GenerationResult) (s : Cache × S)
      → lookup key s.0 ≡ found
      → Left d g key (on_lookup d g request key found s)
  Left-on_lookup request key none (cache, s) h =
      Left-store_result key cache (g.generate request s) h
  Left-on_lookup request key (some c) s h = elim (Bool-cases (has_provenance d g c)) [
    | inl p ↦ rw p (c, h, p, refl)
    | inr p ↦ rw p tt
  ]

  replay :
      (request : GenerationRequest) (key : ℕ) (r : GenerationResult) (s : Cache × S)
      (out : Result Raised GenerationResult)
      → out ≡ ok r
      → Left d g key (out, s)
      → on_lookup d g request key (lookup key s.0) s ≡ (ok (as_hit r), s)
  replay request key r s (err e) h l = cc
  replay request key r s (ok r') h (c, found, p, same) = rw (found, p) (ground (arith, h, same))

  -- After a call that returned, a call with the same prompt, under any trace, is a hit: it returns
  -- the same answer and provenance, with no usage and no provider request, marked as a hit, and
  -- changes nothing,
  -- so that the generator behind the cache is not called.
  pub caching_replays :
      (request again : GenerationRequest) (s s' : Cache × S) (result : GenerationResult)
      → (caching d g).generate request s ≡ (ok result, s')
      → SamePrompt request again
      → (caching d g).generate again s' ≡ (ok (free_hit result), s')
  unfolding caching
  caching_replays request again s s' result e same =
      let key : ℕ = build_generation_cache_key d g request in
      rw (key-same d g request again same) (
        replay again key result s' (ok result) refl
          (subst (Left d g key) e (Left-on_lookup request key (lookup key s.0) s refl)))
