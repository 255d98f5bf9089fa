-- ===== src/Generation/Validation/Report.antt =====
-- What the citation report means (src/ragops/generation/validation.py).
use rag_eval_platform.Prelude.{
  ℕ, ◌+◌, ◌≤◌, ◌≡◌, refl, ◌∙◌, ◌↔◌, inl, inr, Bool, true, false, not, ◌&&◌, ◌||◌, List, [], ◌∷◌,
  ◌++◌, arith, leb, is_nil, bool_eq, if◌then◌else◌, Bool-cases, filter, ok, err, value_error,
}
use rag_eval_platform.Prelude.Text.{Text, text_eq, text_eq_iff, text_eq_refl, occurs_in}
use rag_eval_platform.Generation.{CitedAnswer, Passage, report_is_valid}
use rag_eval_platform.Generation.Validation.{
  mem, duplicates_from, duplicates, unique_from, local_ids, unknown_citations, missing_inline,
  report, validate_citations,
}

-- how often a text stands in a list
abbrev pub count : Text → List Text → ℕ
count s [] = 0
count s (t ∷ ts) = (if text_eq s t then 1 else 0) + count s ts

mem-append_one : (s t : Text) (ts : List Text) → mem s (ts ++ t ∷ []) ≡ (mem s ts || text_eq s t)
mem-append_one s t [] = ground arith
mem-append_one s t (u ∷ ts) = ground (arith, mem-append_one s t ts)

mem-duplicates_from :
    (s : Text) (seen found values : List Text)
    → mem s (duplicates_from seen found values)
      ≡ (mem s found || leb 2 (count s values + (if mem s seen then 1 else 0)))
unfolding duplicates_from
mem-duplicates_from s seen found [] = ground arith
mem-duplicates_from s seen found (v ∷ values) =
    mem-duplicates_from s (v ∷ seen)
      (if mem v seen && not (mem v found) then found ++ v ∷ [] else found) values
    ∙ elim (Bool-cases (text_eq s v)) [
      | inl same ↦ ground (arith, text_eq_iff s v, mem-append_one s v found)
      | inr other ↦ ground (arith, mem-append_one s v found)
    ]

-- `_duplicates` finds the values that stand there twice or more.
mem-duplicates :
    (s : Text) (values : List Text) → mem s (duplicates values) ≡ leb 2 (count s values)
unfolding duplicates
mem-duplicates s values = mem-duplicates_from s [] [] values ∙ ground arith

mem-unique_from :
    (s : Text) (taken values : List Text)
    → mem s (unique_from taken values) ≡ (mem s values && not (mem s taken))
unfolding unique_from
mem-unique_from s taken [] = ground arith
mem-unique_from s taken (v ∷ values) = elim (Bool-cases (text_eq s v)) [
  | inl same ↦ ground (arith, text_eq_iff s v, mem-unique_from s (v ∷ taken) values)
  | inr other ↦ ground (arith, mem-unique_from s (v ∷ taken) values)
]

mem-filter :
    (s : Text) (keep : Text → Bool) (values : List Text)
    → mem s (filter keep values) ≡ (mem s values && keep s)
mem-filter s keep [] = refl
mem-filter s keep (v ∷ values) = elim (Bool-cases (text_eq s v)) [
  | inl same ↦ ground (arith, text_eq_iff s v, mem-filter s keep values)
  | inr other ↦ ground (arith, mem-filter s keep values)
]

nil_of_no_mem : (values : List Text) → ((s : Text) → mem s values ≡ false) → is_nil values ≡ true
nil_of_no_mem [] h = refl
nil_of_no_mem (v ∷ values) h = ground (arith, h v, text_eq_refl v)

no_mem_of_nil : (values : List Text) (s : Text) → is_nil values ≡ true → mem s values ≡ false
no_mem_of_nil [] s h = refl
no_mem_of_nil (v ∷ values) s h = cc

-- An answer cites its contexts properly: what it cites is known, stands in the text and is cited
-- once, and it cites something exactly if it does not abstain.
pub record IsCited (answer : CitedAnswer) (known : List Text) : Type 0 where
  pub cites_known : (s : Text) → mem s answer.citations ≡ true → mem s known ≡ true
  pub cites_inline : (s : Text) → mem s answer.citations ≡ true → occurs_in s answer.answer ≡ true
  pub cites_once : (s : Text) → count s answer.citations ≤ 1
  pub abstains_uncited : is_nil answer.citations ≡ answer.abstained

mem-unknown :
    (s : Text) (known citations : List Text)
    → mem s (unknown_citations known citations) ≡ (mem s citations && not (mem s known))
unfolding unknown_citations
mem-unknown s known citations =
    mem-unique_from s [] (filter (λ c. not (mem c known)) citations)
    ∙ ground (arith, mem-filter s (λ c. not (mem c known)) citations)

mem-missing :
    (s answer : Text) (citations : List Text)
    → mem s (missing_inline answer citations) ≡ (mem s citations && not (occurs_in s answer))
unfolding missing_inline
mem-missing s answer citations =
    mem-unique_from s [] (filter (λ c. not (occurs_in c answer)) citations)
    ∙ ground (arith, mem-filter s (λ c. not (occurs_in c answer)) citations)

-- `valid` as the conjunction of its five tests
report-valid :
    (answer : CitedAnswer) (known : List Text)
    → (report answer known).valid ≡ (
        is_nil (unknown_citations known answer.citations)
        && (is_nil (duplicates answer.citations)
            && (is_nil (missing_inline answer.answer answer.citations)
                && bool_eq (is_nil answer.citations) answer.abstained)))
unfolding report
report-valid answer known = ground arith

-- The report on an answer is valid exactly if the answer cites its contexts properly.
pub report_iff :
    (answer : CitedAnswer) (known : List Text)
    → ((report answer known).valid ≡ true) ↔ IsCited answer known
report_iff answer known = (there, back)
  where
    parts :
        (report answer known).valid ≡ true
        → (is_nil (unknown_citations known answer.citations) ≡ true)
          × (is_nil (duplicates answer.citations) ≡ true)
          × (is_nil (missing_inline answer.answer answer.citations) ≡ true)
          × (is_nil answer.citations ≡ answer.abstained)
    parts h = ground (arith, report-valid answer known)

    there : (report answer known).valid ≡ true → IsCited answer known
    there h = record {
      cites_known = λ s m. ground (
        arith,
        mem-unknown s known answer.citations,
        no_mem_of_nil (unknown_citations known answer.citations) s (parts h).0,
      );
      cites_inline = λ s m. ground (
        arith,
        mem-missing s answer.answer answer.citations,
        no_mem_of_nil (missing_inline answer.answer answer.citations) s (parts h).2,
      );
      cites_once = λ s. ground (
        arith,
        mem-duplicates s answer.citations,
        no_mem_of_nil (duplicates answer.citations) s (parts h).1,
      );
      abstains_uncited = (parts h).«3»;
    }

    back : IsCited answer known → (report answer known).valid ≡ true
    back c =
        let u : is_nil (unknown_citations known answer.citations) ≡ true =
          nil_of_no_mem _
            (λ s. ground (arith, mem-unknown s known answer.citations, c.cites_known s)) in
        let d : is_nil (duplicates answer.citations) ≡ true =
          nil_of_no_mem _
            (λ s. ground (arith, mem-duplicates s answer.citations, c.cites_once s)) in
        let m : is_nil (missing_inline answer.answer answer.citations) ≡ true =
          nil_of_no_mem _
            (λ s. ground (arith, mem-missing s answer.answer answer.citations, c.cites_inline s)) in
        let a : is_nil answer.citations ≡ answer.abstained = c.abstains_uncited in
        ground (arith, report-valid answer known)

-- no identifier stands there twice
abbrev pub AreUnique : List Text → Type 0
AreUnique ids = (s : Text) → count s ids ≤ 1

unique_iff : (ids : List Text) → (is_nil (duplicates ids) ≡ true) ↔ AreUnique ids
unique_iff ids = (
  λ n s. ground (arith, mem-duplicates s ids, no_mem_of_nil (duplicates ids) s n),
  λ u. nil_of_no_mem (duplicates ids) (λ s. ground (arith, mem-duplicates s ids, u s)),
)

report-agrees :
    (answer : CitedAnswer) (known : List Text) → report_is_valid (report answer known) ≡ true
unfolding report
report-agrees answer known = ground arith

-- `validate_citations`, on both branches: it raises exactly when two contexts share an identifier,
-- else it reports, and its report always agrees with itself, so that the contract accepts it.
pub validate_citations_lem :
    (answer : CitedAnswer) (contexts : List Passage)
    → (AreUnique (local_ids contexts)
        → validate_citations answer contexts ≡ ok (report answer (local_ids contexts)))
      × (¬ AreUnique (local_ids contexts) → validate_citations answer contexts ≡ err value_error)
      × (report_is_valid (report answer (local_ids contexts)) ≡ true)
unfolding validate_citations
validate_citations_lem answer contexts =
    elim (Bool-cases (is_nil (duplicates (local_ids contexts)))) [
      | inl n ↦ rw n (
        λ u. refl,
        λ u. absurd (u ((unique_iff (local_ids contexts)).0 n)),
        report-agrees answer (local_ids contexts),
      )
      | inr n ↦ rw n (
        λ u. ground (arith, (unique_iff (local_ids contexts)).1 u),
        λ u. refl,
        report-agrees answer (local_ids contexts),
      )
    ]
