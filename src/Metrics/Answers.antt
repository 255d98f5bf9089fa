-- ===== src/Metrics/Answers.antt =====
-- The deterministic metrics of answers: src/ragops/evaluation/answer_metrics.py. A set is a list
-- without duplicates; the float operations are those of `ScoreOps`. Evidence metadata holds, for a
-- document, its rationales, or `none` where the value is no list; a rationale holds its label and its
-- sentences, each `none` where the entry is missing or of another type.
use rag_eval_platform.Prelude.{
  ℕ, ◌+◌, ◌*◌, Bool, false, not, ◌&&◌, ◌||◌, Option, none, some, List, [], ◌∷◌, ◌++◌, ◌==◌, is_nil,
  bool_eq, if◌then◌else◌, length, filter, any, contains, names, Result, ok, err, ℤ, Error,
  value_error,
}
use rag_eval_platform.Prelude.Text.{Text, text_eq}
use rag_eval_platform.Prelude.Dict.{Dict}
use rag_eval_platform.Metrics.{ScoreOps, relevant}
use rag_eval_platform.Generation.{
  Passage, AnswerResponse, CitationValidation, SciFactLabel, support, contradict, not_enough_info,
}

pub record AnswerMetricScores : Type 0 where
  pub citation_validity : ℕ
  pub context_precision : ℕ
  pub abstention_correctness : ℕ

-- `float(b)`
abbrev pub float_of : ScoreOps → Bool → ℕ
float_of ops b = if b then ops.ratio 1 1 else ops.zero_score

-- `set(xs)`
abbrev as_set : List ℕ → List ℕ
as_set [] = []
as_set (x ∷ xs) = let rest = as_set xs in if contains x rest then rest else x ∷ rest

abbrev context_ids : List Passage → List ℕ
context_ids contexts = names (λ p. p.document_id) contexts

abbrev is_valid_report : Option CitationValidation → Bool
is_valid_report none = false
is_valid_report (some report) = report.valid

unfoldable pub compute_answer_metrics : ScoreOps → AnswerResponse → Dict ℤ → AnswerMetricScores
unfolding relevant
compute_answer_metrics ops answer qrels =
    let retrieved : List ℕ = as_set (context_ids answer.contexts) in
    let shared : List ℕ = filter (λ d. contains d (relevant qrels)) retrieved in
    record {
      citation_validity = float_of ops (is_valid_report answer.citation_validation);
      context_precision =
          if is_nil retrieved then ops.zero_score else ops.ratio (length shared) (length retrieved);
      abstention_correctness = float_of ops (bool_eq answer.abstained (is_nil shared));
    }

pub record Rationale : Type 0 where
  pub label : Option ℕ
  pub sentences : Option (List ℕ)

abbrev pub Evidence : Type 0
Evidence = Dict (Option (List Rationale))

-- the names of the labels
abbrev pub label_name : SciFactLabel → ℕ
label_name support = 0
label_name contradict = 1
label_name not_enough_info = 2

-- `SciFactLabel(name)`
abbrev label_of : ℕ → Result Error SciFactLabel
label_of n =
    if n == 0
    then ok support
    else (if n == 1
        then ok contradict
        else (if n == 2 then ok not_enough_info else err value_error))

abbrev prepend : {A : Type 0} → A → Result Error (List A) → Result Error (List A)
prepend a (ok xs) = ok (a ∷ xs)
prepend a (err e) = err e

abbrev joined : {A : Type 0} → List A → Result Error (List A) → Result Error (List A)
joined before (ok xs) = ok (before ++ xs)
joined before (err e) = err e

-- the labels of the rationales of one document
abbrev rationale_label : Option ℕ → Result Error (List ℕ) → Result Error (List ℕ)
rationale_label none rest = err value_error
rationale_label (some name) rest = prepend name rest

abbrev labels_of : List Rationale → Result Error (List ℕ)
labels_of [] = ok []
labels_of (r ∷ rationales) = rationale_label r.label (labels_of rationales)

abbrev join_labels : Result Error (List ℕ) → Result Error (List ℕ) → Result Error (List ℕ)
join_labels (err e) rest = err e
join_labels (ok labels) rest = joined labels rest

abbrev document_labels : Option (List Rationale) → Result Error (List ℕ) → Result Error (List ℕ)
document_labels none rest = err value_error
document_labels (some rationales) rest = join_labels (labels_of rationales) rest

abbrev evidence_labels : Evidence → Result Error (List ℕ)
evidence_labels [] = ok []
evidence_labels (e ∷ metadata) = document_labels e.1 (evidence_labels metadata)

-- the one label of a set
abbrev single_label : List ℕ → Result Error SciFactLabel
single_label [] = err value_error
single_label (name ∷ []) = label_of name
single_label (name ∷ other ∷ names) = err value_error

abbrev consistent_label : Result Error (List ℕ) → Result Error SciFactLabel
consistent_label (err e) = err e
consistent_label (ok labels) = single_label (as_set labels)

unfoldable pub scifact_gold_label : Evidence → Result Error SciFactLabel
scifact_gold_label metadata =
    if is_nil metadata then ok not_enough_info else consistent_label (evidence_labels metadata)

-- pairs of a document and a sentence
abbrev has_pair : ℕ × ℕ → List (ℕ × ℕ) → Bool
has_pair p pairs = any (λ q. p.0 == q.0 && p.1 == q.1) pairs

abbrev distinct_pairs : List (ℕ × ℕ) → List (ℕ × ℕ)
distinct_pairs [] = []
distinct_pairs (p ∷ pairs) =
    let rest = distinct_pairs pairs in if has_pair p rest then rest else p ∷ rest

abbrev with_document : ℕ → List ℕ → List (ℕ × ℕ)
with_document d [] = []
with_document d (s ∷ sentences) = (d, s) ∷ with_document d sentences

-- `local_to_document`: of two passages with one local id, the last
abbrev document_of : Text → List Passage → Option ℕ
document_of l [] = none
document_of l (p ∷ contexts) = elim (document_of l contexts) [
  | some d ↦ some d
  | none ↦ if text_eq l p.local_id then some p.document_id else none
]

abbrev cited_pairs : Option ℕ → List ℕ → List (ℕ × ℕ)
cited_pairs none sentences = []
cited_pairs (some d) sentences = with_document d sentences

abbrev predicted_pairs : List Passage → List (Text × List ℕ) → List (ℕ × ℕ)
predicted_pairs contexts [] = []
predicted_pairs contexts ((l, sentences) ∷ rationales) =
    cited_pairs (document_of l contexts) sentences ++ predicted_pairs contexts rationales

abbrev rationale_pairs :
    ℕ → Option (List ℕ) → Result Error (List (ℕ × ℕ)) → Result Error (List (ℕ × ℕ))
rationale_pairs d none rest = err value_error
rationale_pairs d (some sentences) rest = joined (with_document d sentences) rest

abbrev pairs_of : ℕ → List Rationale → Result Error (List (ℕ × ℕ))
pairs_of d [] = ok []
pairs_of d (r ∷ rationales) = rationale_pairs d r.sentences (pairs_of d rationales)

abbrev join_pairs :
    Result Error (List (ℕ × ℕ)) → Result Error (List (ℕ × ℕ)) → Result Error (List (ℕ × ℕ))
join_pairs (err e) rest = err e
join_pairs (ok pairs) rest = joined pairs rest

abbrev document_pairs :
    ℕ → Option (List Rationale) → Result Error (List (ℕ × ℕ)) → Result Error (List (ℕ × ℕ))
document_pairs d none rest = err value_error
document_pairs d (some rationales) rest = join_pairs (pairs_of d rationales) rest

abbrev gold_pairs : Evidence → Result Error (List (ℕ × ℕ))
gold_pairs [] = ok []
gold_pairs (e ∷ metadata) = document_pairs e.0 e.1 (gold_pairs metadata)

abbrev rationale_precision : ScoreOps → List (ℕ × ℕ) → Result Error (List (ℕ × ℕ)) → Result Error ℕ
rationale_precision ops predicted (err e) = err e
rationale_precision ops predicted (ok gold) =
    if is_nil predicted
    then ok (float_of ops (is_nil gold))
    else ok (ops.ratio (length (filter (λ p. has_pair p gold) predicted)) (length predicted))

unfoldable pub compute_scifact_rationale_precision :
    ScoreOps → AnswerResponse → Evidence → Result Error ℕ
compute_scifact_rationale_precision ops answer metadata =
    rationale_precision ops
      (distinct_pairs (predicted_pairs answer.contexts answer.rationale_sentences))
      (gold_pairs metadata)

-- the three counts of `macro_f1` for a label, over the pairs of gold and prediction
abbrev is_label : SciFactLabel → SciFactLabel → Bool
is_label a b = label_name a == label_name b

abbrev pub predicts : SciFactLabel → Option SciFactLabel → Bool
predicts l none = false
predicts l (some p) = is_label p l

abbrev count_pairs :
    (SciFactLabel → Option SciFactLabel → Bool) → List (SciFactLabel × Option SciFactLabel) → ℕ
count_pairs test pairs = length (filter (λ p. test p.0 p.1) pairs)

abbrev true_positive : SciFactLabel → List (SciFactLabel × Option SciFactLabel) → ℕ
true_positive l pairs = count_pairs (λ g p. is_label g l && predicts l p) pairs

abbrev false_positive : SciFactLabel → List (SciFactLabel × Option SciFactLabel) → ℕ
false_positive l pairs = count_pairs (λ g p. not (is_label g l) && predicts l p) pairs

abbrev false_negative : SciFactLabel → List (SciFactLabel × Option SciFactLabel) → ℕ
false_negative l pairs = count_pairs (λ g p. is_label g l && not (predicts l p)) pairs

abbrev f1_score : ScoreOps → SciFactLabel → List (SciFactLabel × Option SciFactLabel) → ℕ
f1_score ops l pairs =
    let tp : ℕ = true_positive l pairs in
    let denominator : ℕ = 2 * tp + false_positive l pairs + false_negative l pairs in
    if denominator == 0 then ops.zero_score else ops.ratio (2 * tp) denominator

abbrev zip : {A B : Type 0} → List A → List B → List (A × B)
zip [] bs = []
zip (a ∷ rest) [] = []
zip (a ∷ rest) (b ∷ bs) = (a, b) ∷ zip rest bs

-- the mean of the three scores is a parameter
macro_f1 : ScoreOps → (List ℕ → ℕ) → List SciFactLabel → List (Option SciFactLabel) → Result Error ℕ
macro_f1 ops mean gold predicted =
    if is_nil gold || not (length gold == length predicted)
    then err value_error
    else (let pairs : List (SciFactLabel × Option SciFactLabel) = zip gold predicted in
        ok (
          mean (
            f1_score ops support pairs
            ∷ f1_score ops contradict pairs
            ∷ f1_score ops not_enough_info pairs
            ∷ [])))
