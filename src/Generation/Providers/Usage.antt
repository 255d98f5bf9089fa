-- ===== src/Generation/Providers/Usage.antt =====
-- What a call reports as used is what the provider has billed for it, through repair and cache
-- (src/ragops/generation/repair.py and cache.py).
use rag_eval_platform.Prelude.{
  ℕ, ◌+◌, ◌≡◌, refl, sym, ap, ◌∙◌, inl, inr, true, Option, none, some, arith, Bool-cases, Result,
  ok, err,
}
use rag_eval_platform.Prelude.Dict.{lookup}
use rag_eval_platform.Generation.{
  TokenUsage, no_usage, usage_is_valid, GenerationRequest, GenerationResult, FailureKind, schema,
  refused, provider_failed, timed_out, GenerationFailure, Raised, failed, broke, add_usage,
}
use rag_eval_platform.Generation.Providers.{
  Generator, repair_request, after_repair, on_failure, after_first, repairing, Digests, Cache,
  build_generation_cache_key, has_provenance, store_result, on_lookup, caching,
}

-- what the outcome of a call reports
abbrev pub reported : Result Raised GenerationResult → Option TokenUsage
reported (ok result) = some result.usage
reported (err (failed f)) = some f.usage
reported (err (broke e)) = none

-- the sum of two bills, field by field
abbrev pub plus : TokenUsage → TokenUsage → TokenUsage
plus a b = record {
  input_tokens = a.input_tokens + b.input_tokens;
  output_tokens = a.output_tokens + b.output_tokens;
  cached_input_tokens = a.cached_input_tokens + b.cached_input_tokens;
  cache_write_input_tokens = a.cache_write_input_tokens + b.cache_write_input_tokens;
  cost_usd = a.cost_usd + b.cost_usd;
}

add_usage-plus : (a b : TokenUsage) → add_usage a b ≡ plus a b
unfolding add_usage
add_usage-plus a b = refl

plus_zero : (u : TokenUsage) → plus u no_usage ≡ u
plus_zero u = ground arith

plus_assoc : (a b c : TokenUsage) → plus (plus a b) c ≡ plus a (add_usage b c)
plus_assoc a b c = assoc ∙ ap (plus a) (sym (add_usage-plus b c))
  where
    assoc : plus (plus a b) c ≡ plus a (plus b c)
    assoc = ground arith

-- Usage that fits its contract adds up to usage that does.
usage_is_valid-add :
    (a b : TokenUsage)
    → usage_is_valid a ≡ true
    → usage_is_valid b ≡ true
    → usage_is_valid (add_usage a b) ≡ true
unfolding add_usage
usage_is_valid-add a b h k = ground arith

-- the bill before and after a call, against what the call reports
abbrev IsPaid : TokenUsage → Option TokenUsage → TokenUsage → Type 0
IsPaid before none after = Unit
IsPaid before (some u) after = after ≡ plus before u

module _ {S : Type 0} (billed : S → TokenUsage) where
  -- Every call that returns, or fails with a report, reports what it has added to the bill.
  abbrev pub Accounts : Generator S → Type 0
  Accounts g =
      (request : GenerationRequest) (s : S)
      → let (out, s') = g.generate request s in IsPaid (billed s) (reported out) (billed s')

  IsPaid-after_repair :
      (before : TokenUsage) (first : TokenUsage) (middle : TokenUsage)
      (out : Result Raised GenerationResult × S)
      → middle ≡ plus before first
      → IsPaid middle (reported out.0) (billed out.1)
      → IsPaid before (reported (after_repair first out).0) (billed (after_repair first out).1)
  IsPaid-after_repair before first middle (ok r, s) e h =
      h ∙ ap (λ (u : TokenUsage). plus u r.usage) e ∙ plus_assoc before first r.usage
  IsPaid-after_repair before first middle (err (failed f), s) e h =
      h ∙ ap (λ (u : TokenUsage). plus u f.usage) e ∙ plus_assoc before first f.usage
  IsPaid-after_repair before first middle (err (broke x), s) e h = tt

  IsPaid-on_failure :
      (g : Generator S) (request : GenerationRequest) (kind : FailureKind) (f : GenerationFailure)
      (before : TokenUsage) (s : S)
      → Accounts g
      → billed s ≡ plus before f.usage
      → let (out, s') = on_failure g request kind f s in IsPaid before (reported out) (billed s')
  IsPaid-on_failure g request schema f before s a h =
      IsPaid-after_repair before f.usage (billed s) (g.generate (repair_request request) s) h
        (a (repair_request request) s)
  IsPaid-on_failure g request refused f before s a h = h
  IsPaid-on_failure g request provider_failed f before s a h = h
  IsPaid-on_failure g request timed_out f before s a h = h

  IsPaid-after_first :
      (g : Generator S) (request : GenerationRequest) (before : TokenUsage)
      (out : Result Raised GenerationResult × S)
      → Accounts g
      → IsPaid before (reported out.0) (billed out.1)
      → let (out', s') = after_first g request out in IsPaid before (reported out') (billed s')
  IsPaid-after_first g request before (ok r, s) a h = h
  IsPaid-after_first g request before (err (failed f), s) a h =
      IsPaid-on_failure g request f.kind f before s a h
  IsPaid-after_first g request before (err (broke e), s) a h = tt

  -- The repairing generator reports the usage of both of its calls, added up in each field: where the
  -- provider's generator reports exactly what it bills, so does the repairing one, whether the
  -- repair succeeds or fails.
  pub Accounts-repairing : (g : Generator S) → Accounts g → Accounts (repairing g)
  unfolding repairing
  Accounts-repairing g a request s =
      IsPaid-after_first g request (billed s) (g.generate request s) a (a request s)

  IsPaid-store_result :
      (d : Digests) (g : Generator S) (key : ℕ) (cache : Cache) (before : TokenUsage)
      (out : Result Raised GenerationResult × S)
      → IsPaid before (reported out.0) (billed out.1)
      → let (out', s') = store_result d g key cache out in
        IsPaid before (reported out') (billed s'.1)
  IsPaid-store_result d g key cache before (err e, s) h = h
  IsPaid-store_result d g key cache before (ok r, s) h = elim (Bool-cases (has_provenance d g r)) [
    | inl p ↦ elim (Bool-cases r.cache_hit) [
      | inl hit ↦ rw (p, hit) tt
      | inr fresh ↦ rw (p, fresh) h
    ]
    | inr p ↦ rw p tt
  ]

  IsPaid-on_lookup :
      (d : Digests) (g : Generator S) (request : GenerationRequest) (key : ℕ)
      (found : Option GenerationResult) (s : Cache × S)
      → Accounts g
      → let (out, s') = on_lookup d g request key found s in
        IsPaid (billed s.1) (reported out) (billed s'.1)
  IsPaid-on_lookup d g request key none (cache, s) a =
      IsPaid-store_result d g key cache (billed s) (g.generate request s) (a request s)
  IsPaid-on_lookup d g request key (some c) (cache, s) a =
      elim (Bool-cases (has_provenance d g c)) [
        | inl p ↦ rw p (sym (plus_zero (billed s)))
        | inr p ↦ rw p tt
      ]

-- The caching generator reports exactly what it adds to the bill: nothing on a hit, else what the
-- generator behind it reports, where that one reports exactly what it bills.
pub Accounts-caching :
    {S : Type 0} (billed : S → TokenUsage) (d : Digests) (g : Generator S)
    → Accounts billed g
    → Accounts (λ (s : Cache × S). billed s.1) (caching d g)
unfolding caching
Accounts-caching billed d g a request s =
    IsPaid-on_lookup billed d g request (build_generation_cache_key d g request)
      (lookup (build_generation_cache_key d g request) s.0) s a
