-- ===== src/Generation/Tests.antt =====
-- Small prompts, answers and generators, and the theorems on generation there.
use rag_eval_platform.Prelude.{
  ℕ, zero, suc, ◌+◌, ◌*◌, ◌≡◌, refl, ◌↔◌, true, false, none, some, List, [], ◌∷◌, length, Result,
  ok, err, value_error, Error, Bool-cases, inl, inr, arith,
}
use rag_eval_platform.Prelude.Text.{Text, codes, text_eq, text_eq_iff}
use rag_eval_platform.Generation.{
  high, TokenUsage, no_usage, CitedAnswer, GenerationRequest, Passage, GenerationResult, schema,
  Raised, failed, report_is_valid,
}
use rag_eval_platform.Generation.Validation.{local_ids, report, validate_citations}
use rag_eval_platform.Generation.Validation.Report.{
  IsCited, AreUnique, report_iff, validate_citations_lem,
}
use rag_eval_platform.Generation.Providers.{Generator, repairing, Digests, Cache, caching}
use rag_eval_platform.Generation.Providers.Usage.{
  plus, Accounts, Accounts-repairing, Accounts-caching,
}
use rag_eval_platform.Generation.Providers.Replay.{free_hit, caching_replays}

abbrev two_citations : CitedAnswer
two_citations = record {
  answer = codes "yes [1] [2]";
  citations = codes "[1]" ∷ codes "[2]" ∷ [];
  abstained = false;
  confidence = high;
  verification_label = none;
  rationale_sentences = [];
}

abbrev passage : Text → ℕ → Passage
passage id rank = record {
  local_id = id;
  document_id = 7;
  title = 1;
  body = 2;
  retrieval_rank = rank;
  retrieval_score = 3;
}

abbrev passages : List Passage
passages = passage (codes "[1]") 1 ∷ passage (codes "[2]") 2 ∷ []

report_iff_example :
    ((report two_citations (local_ids passages)).valid ≡ true)
    ↔ IsCited two_citations (local_ids passages)
report_iff_example = report_iff two_citations (local_ids passages)

validate_citations_lem_example :
    (AreUnique (local_ids passages)
      → validate_citations two_citations passages ≡ ok (report two_citations (local_ids passages)))
    × (¬ AreUnique (local_ids passages)
        → validate_citations two_citations passages ≡ err value_error)
    × (report_is_valid (report two_citations (local_ids passages)) ≡ true)
validate_citations_lem_example = validate_citations_lem two_citations passages

abbrev usage_of : ℕ → TokenUsage
usage_of n = record {
  input_tokens = n;
  output_tokens = 1;
  cached_input_tokens = 0;
  cache_write_input_tokens = 0;
  cost_usd = n * 3;
}

abbrev result_of : ℕ → GenerationResult
result_of n = record {
  output = two_citations;
  usage = usage_of n;
  provider = 1;
  model = 2;
  generator_configuration_hash = 3;
  provider_request_id = some 9;
  cache_hit = false;
}

-- A provider that bills each call by the length of the prompt. Its first call fails by the schema.
abbrev flaky_call :
    GenerationRequest → ℕ × TokenUsage → Result Raised GenerationResult × (ℕ × TokenUsage)
flaky_call request (zero, bill) = (
  err (
      failed (record {
        kind = schema;
        message = 4;
        usage = usage_of (length request.user_prompt);
        provider_request_id = none;
      })),
  (1, plus bill (usage_of (length request.user_prompt))),
)
flaky_call request (suc n, bill) = (
  ok (result_of (length request.user_prompt)),
  (suc n, plus bill (usage_of (length request.user_prompt))),
)

abbrev flaky : Generator (ℕ × TokenUsage)
flaky = record { provider = 1; model = 2; configuration_hash = 3; generate = flaky_call }

abbrev billed : ℕ × TokenUsage → TokenUsage
billed s = s.1

flaky-Accounts : Accounts billed flaky
flaky-Accounts request (zero, bill) = refl
flaky-Accounts request (suc n, bill) = refl

Accounts-repairing_example : Accounts billed (repairing flaky)
Accounts-repairing_example = Accounts-repairing billed flaky flaky-Accounts

abbrev digests : Digests
digests = record { prompt = λ v s u. v + length s + length u; key = λ c m v p h. c + m + v + p + h }

Accounts-caching_example :
    Accounts (λ (s : Cache × (ℕ × TokenUsage)). billed s.1) (caching digests flaky)
Accounts-caching_example = Accounts-caching billed digests flaky flaky-Accounts

abbrev prompt : ℕ → GenerationRequest
prompt trace = record {
  system_prompt = codes "sys";
  user_prompt = codes "ask";
  prompt_version = 5;
  trace_id = trace;
}

abbrev after_miss : Cache × (ℕ × TokenUsage)
after_miss = ((22, result_of 3) ∷ [], (1, usage_of 3))

first_call :
    (caching digests flaky).generate (prompt 1) ([], (1, no_usage)) ≡ (ok (result_of 3), after_miss)
unfolding caching
first_call = refl

caching_replays_example :
    (caching digests flaky).generate (prompt 2) after_miss
    ≡ (ok (free_hit (result_of 3)), after_miss)
caching_replays_example =
    caching_replays digests flaky (prompt 1) (prompt 2) ([], (1, no_usage)) after_miss (result_of 3)
      first_call (refl, refl, refl)

abbrev render : ℕ → List Passage → ℕ → Result Error GenerationRequest
render query contexts trace = ok (prompt trace)

passages-AreUnique : AreUnique (local_ids passages)
passages-AreUnique s = elim (Bool-cases (text_eq s (codes "[1]"))) [
  | inl h ↦ ground (arith, text_eq_iff s (codes "[1]"))
  | inr h ↦ ground arith
]
