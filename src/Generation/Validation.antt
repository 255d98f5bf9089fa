-- ===== src/Generation/Validation.antt =====
-- `validate_citations` of src/ragops/generation/validation.py.
pub mod Report
use rag_eval_platform.Prelude.{
  Bool, false, not, ◌&&◌, ◌||◌, List, [], ◌∷◌, ◌++◌, is_nil, if◌then◌else◌, filter, Result, ok, err,
  Error, value_error,
}
use rag_eval_platform.Prelude.Text.{Text, text_eq, occurs_in}
use rag_eval_platform.Generation.{CitedAnswer, Passage, CitationValidation}

-- `value in values`
abbrev pub mem : Text → List Text → Bool
mem s [] = false
mem s (t ∷ ts) = text_eq s t || mem s ts

-- the loop of `_duplicates`, over the values seen and the duplicates found so far
pub duplicates_from : List Text → List Text → List Text → List Text
duplicates_from seen found [] = found
duplicates_from seen found (v ∷ values) =
    duplicates_from (v ∷ seen) (if mem v seen && not (mem v found) then found ++ v ∷ [] else found)
      values

pub duplicates : List Text → List Text
unfolding duplicates_from
duplicates values = duplicates_from [] [] values

-- `tuple(dict.fromkeys(values))`, over the keys taken so far
pub unique_from : List Text → List Text → List Text
unique_from taken [] = []
unique_from taken (v ∷ values) =
    let rest = unique_from (v ∷ taken) values in if mem v taken then rest else v ∷ rest

abbrev pub local_ids : List Passage → List Text
local_ids [] = []
local_ids (p ∷ ps) = p.local_id ∷ local_ids ps

pub unknown_citations : List Text → List Text → List Text
unfolding unique_from
unknown_citations known citations = unique_from [] (filter (λ c. not (mem c known)) citations)

pub missing_inline : Text → List Text → List Text
unfolding unique_from
missing_inline answer citations = unique_from [] (filter (λ c. not (occurs_in c answer)) citations)

-- the report on an answer whose context identifiers are unique
pub report : CitedAnswer → List Text → CitationValidation
unfolding unknown_citations missing_inline duplicates
report answer known =
    let unknown = unknown_citations known answer.citations in
    let repeated = duplicates answer.citations in
    let inline = missing_inline answer.answer answer.citations in
    let required = not answer.abstained && is_nil answer.citations in
    let abstention = answer.abstained && not (is_nil answer.citations) in
    record {
      valid = not (
          not (is_nil unknown)
          || not (is_nil repeated)
          || not (is_nil inline)
          || required
          || abstention);
      unknown_citations = unknown;
      duplicate_citations = repeated;
      missing_inline_citations = inline;
      missing_required_citation = required;
      citations_on_abstention = abstention;
    }

pub validate_citations : CitedAnswer → List Passage → Result Error CitationValidation
unfolding duplicates
validate_citations answer contexts =
    let ids = local_ids contexts in
    if is_nil (duplicates ids) then ok (report answer ids) else err value_error
