-- ===== src/Runs/Results/Verdicts.antt =====
-- What the verdicts of an update become in a result (src/ragops/evaluation/repository.py).
use rag_eval_platform.Prelude.{
  ℕ, ◌+◌, ◌≡◌, refl, sym, ap, ◌∙◌, inl, inr, Bool, true, false, Option, none, some, [], ◌∷◌, arith,
  ◌==◌, is_some, if◌then◌else◌, Bool-cases, Option-cases, contains, Distinct,
}
use rag_eval_platform.Prelude.Dict.{Dict, lookup, insert, keys, lookup-insert}
use rag_eval_platform.Runs.Store.{JudgeVerdict, EvalQueryResultRow}
use rag_eval_platform.Runs.Results.{faithfulness_key, relevance_key, with_verdict, with_verdicts}

-- the verdict that a profile has afterwards: the old one where there is one
abbrev pub kept_or : Option JudgeVerdict → Option JudgeVerdict → Option JudgeVerdict
kept_or (some old) given = some old
kept_or none given = given

-- the score that a profile has afterwards, from its old verdict, the one given and its old score
abbrev pub score_after :
    (JudgeVerdict → ℕ) → Option JudgeVerdict → Option JudgeVerdict → Option ℕ → Option ℕ
score_after score (some old) given before = before
score_after score none (some d) before = some (score d)
score_after score none none before = before

-- the cost of the verdicts of profiles that have none yet
abbrev pub fresh_cost : Dict JudgeVerdict → Dict JudgeVerdict → ℕ
fresh_cost records [] = 0
fresh_cost records ((p, d) ∷ verdicts) =
    (if is_some (lookup p records) then 0 else d.usage.cost_usd) + fresh_cost records verdicts

-- What becomes of a result that is given verdicts of distinct profiles: each profile without a verdict
-- takes its one with both its scores and its cost, and all else stays.
pub record TakesVerdicts (verdicts : Dict JudgeVerdict) (old new : EvalQueryResultRow)
    : Type 0 where
  pub records :
      (p : ℕ)
      → lookup p new.judge_records ≡ kept_or (lookup p old.judge_records) (lookup p verdicts)
  pub faithfulness :
      (p : ℕ)
      → lookup (faithfulness_key p) new.judge_scores
        ≡ score_after
            (λ d. d.faithfulness)
            (lookup p old.judge_records)
            (lookup p verdicts)
            (lookup (faithfulness_key p) old.judge_scores)
  pub relevance :
      (p : ℕ)
      → lookup (relevance_key p) new.judge_scores
        ≡ score_after
            (λ d. d.relevance)
            (lookup p old.judge_records)
            (lookup p verdicts)
            (lookup (relevance_key p) old.judge_scores)
  pub cost : new.token_cost_usd ≡ old.token_cost_usd + fresh_cost old.judge_records verdicts
  pub same_answer : new.generation_record ≡ old.generation_record
  pub same_scores : new.deterministic_scores ≡ old.deterministic_scores
  pub same_ranking : new.ranked_document_ids ≡ old.ranked_document_ids

kept_or-none : (a : Option JudgeVerdict) → a ≡ kept_or a none
kept_or-none none = refl
kept_or-none (some x) = refl

kept_or-twice :
    (a c : Option JudgeVerdict) (b : Bool) (v : JudgeVerdict)
    → kept_or (kept_or a (if b then some v else none)) c ≡ kept_or a (if b then some v else c)
kept_or-twice none c true v = refl
kept_or-twice none c false v = refl
kept_or-twice (some x) c b v = refl

score_after-none :
    (score : JudgeVerdict → ℕ) (a : Option JudgeVerdict) (s : Option ℕ)
    → s ≡ score_after score a none s
score_after-none score none s = refl
score_after-none score (some x) s = refl

score_after-twice :
    (score : JudgeVerdict → ℕ) (a c : Option JudgeVerdict) (b : Bool) (v : JudgeVerdict)
    (s : Option ℕ)
    → score_after score
        (kept_or a (if b then some v else none))
        c
        (score_after score a (if b then some v else none) s)
      ≡ score_after score a (if b then some v else c) s
score_after-twice score none c true v s = refl
score_after-twice score none c false v s = refl
score_after-twice score (some x) c b v s = refl

module _ (q : ℕ) (v : JudgeVerdict) (r : EvalQueryResultRow) where
  same_key : (p : ℕ) → (p == q) ≡ true → p ≡ q
  same_key p h = ground arith

  one_record :
      (p : ℕ)
      → lookup p (with_verdict q v r).judge_records
        ≡ kept_or (lookup p r.judge_records) (if p == q then some v else none)
  one_record p = elim (Option-cases (lookup q r.judge_records)) [
    | inr (x, h) ↦ elim (Bool-cases (p == q)) [
      | inl k ↦
          let here : lookup p r.judge_records ≡ some x =
            ap (λ (n : ℕ). lookup n r.judge_records) (same_key p k) ∙ h in
          rw (h, k, here) refl
      | inr k ↦ rw (h, k) (kept_or-none (lookup p r.judge_records))
    ]
    | inl h ↦ elim (Bool-cases (p == q)) [
      | inl k ↦
          let here : lookup p r.judge_records ≡ none =
            ap (λ (n : ℕ). lookup n r.judge_records) (same_key p k) ∙ h in
          rw (h, lookup-insert p q v r.judge_records, k, here) refl
      | inr k ↦
          rw (h, lookup-insert p q v r.judge_records, k) (kept_or-none (lookup p r.judge_records))
    ]
  ]

  -- a score under a key that is among the two that the verdict writes just for its own profile
  one_score :
      (score : JudgeVerdict → ℕ) (p n : ℕ)
      → ((s : Dict ℕ)
          → lookup n
              (insert (relevance_key q) v.relevance (insert (faithfulness_key q) v.faithfulness s))
            ≡ (if p == q then some (score v) else lookup n s))
      → lookup n (with_verdict q v r).judge_scores
        ≡ score_after score
            (lookup p r.judge_records)
            (if p == q then some v else none)
            (lookup n r.judge_scores)
  one_score score p n written = elim (Option-cases (lookup q r.judge_records)) [
    | inr (x, h) ↦ elim (Bool-cases (p == q)) [
      | inl k ↦
          let here : lookup p r.judge_records ≡ some x =
            ap (λ (m : ℕ). lookup m r.judge_records) (same_key p k) ∙ h in
          rw (h, k, here) refl
      | inr k ↦
          rw (h, k) (score_after-none score (lookup p r.judge_records) (lookup n r.judge_scores))
    ]
    | inl h ↦ elim (Bool-cases (p == q)) [
      | inl k ↦
          let here : lookup p r.judge_records ≡ none =
            ap (λ (m : ℕ). lookup m r.judge_records) (same_key p k) ∙ h in
          rw (h, written r.judge_scores, k, here) refl
      | inr k ↦
          rw (h, written r.judge_scores, k)
            (score_after-none score (lookup p r.judge_records) (lookup n r.judge_scores))
    ]
  ]

  faithfulness_written :
      (p : ℕ) (s : Dict ℕ)
      → lookup
          (faithfulness_key p)
          (insert (relevance_key q) v.relevance (insert (faithfulness_key q) v.faithfulness s))
        ≡ (if p == q then some v.faithfulness else lookup (faithfulness_key p) s)
  faithfulness_written p s =
      lookup-insert (faithfulness_key p) (relevance_key q) v.relevance
        (insert (faithfulness_key q) v.faithfulness s)
      ∙ ground (arith, lookup-insert (faithfulness_key p) (faithfulness_key q) v.faithfulness s)

  relevance_written :
      (p : ℕ) (s : Dict ℕ)
      → lookup
          (relevance_key p)
          (insert (relevance_key q) v.relevance (insert (faithfulness_key q) v.faithfulness s))
        ≡ (if p == q then some v.relevance else lookup (relevance_key p) s)
  relevance_written p s =
      lookup-insert (relevance_key p) (relevance_key q) v.relevance
        (insert (faithfulness_key q) v.faithfulness s)
      ∙ ground (arith, lookup-insert (relevance_key p) (faithfulness_key q) v.faithfulness s)

  one_cost :
      (with_verdict q v r).token_cost_usd
      ≡ r.token_cost_usd + (if is_some (lookup q r.judge_records) then 0 else v.usage.cost_usd)
  one_cost = elim (Option-cases (lookup q r.judge_records)) [
    | inr (x, h) ↦ rw h (ground arith)
    | inl h ↦ rw h refl
  ]

  same_rest :
      ((with_verdict q v r).generation_record ≡ r.generation_record)
      × ((with_verdict q v r).deterministic_scores ≡ r.deterministic_scores)
      × ((with_verdict q v r).ranked_document_ids ≡ r.ranked_document_ids)
  same_rest = elim (Option-cases (lookup q r.judge_records)) [
    | inr (x, h) ↦ rw h (refl, refl, refl)
    | inl h ↦ rw h (refl, refl, refl)
  ]

  -- another profile is as fresh as before
  fresh_cost-one :
      (verdicts : Dict JudgeVerdict)
      → contains q (keys verdicts) ≡ false
      → fresh_cost (with_verdict q v r).judge_records verdicts ≡ fresh_cost r.judge_records verdicts
  fresh_cost-one [] h = refl
  fresh_cost-one ((p, d) ∷ verdicts) h =
      let other : (p == q) ≡ false = ground (arith, h) in
      let same : lookup p (with_verdict q v r).judge_records ≡ lookup p r.judge_records =
        one_record p ∙ rw other (sym (kept_or-none (lookup p r.judge_records))) in
      rw (same, fresh_cost-one verdicts (ground (arith, h))) refl

pub with_verdicts-TakesVerdicts :
    (verdicts : Dict JudgeVerdict) (r : EvalQueryResultRow)
    → Distinct (keys verdicts)
    → TakesVerdicts verdicts r (with_verdicts verdicts r)
unfolding with_verdicts
with_verdicts-TakesVerdicts [] r d = record {
  records = λ p. kept_or-none (lookup p r.judge_records);
  faithfulness = λ p.
      score_after-none (λ d. d.faithfulness) (lookup p r.judge_records)
        (lookup (faithfulness_key p) r.judge_scores);
  relevance = λ p.
      score_after-none (λ d. d.relevance) (lookup p r.judge_records)
        (lookup (relevance_key p) r.judge_scores);
  cost = ground arith;
  same_answer = refl;
  same_scores = refl;
  same_ranking = refl;
}
with_verdicts-TakesVerdicts ((q, v) ∷ verdicts) r d =
    let r' : EvalQueryResultRow = with_verdict q v r in
    let rest = with_verdicts-TakesVerdicts verdicts r' d.1 in
    let (answer, scores, ranking) = same_rest q v r in
    record {
      records = λ p.
          rest.records p
          ∙ ap (λ (a : Option JudgeVerdict). kept_or a (lookup p verdicts)) (one_record q v r p)
          ∙ kept_or-twice (lookup p r.judge_records) (lookup p verdicts) (p == q) v;
      faithfulness = λ p.
          rest.faithfulness p
          ∙ step (λ d. d.faithfulness) (faithfulness_key p) p
              (one_score q v r (λ d. d.faithfulness) p (faithfulness_key p)
                (faithfulness_written q v r p));
      relevance = λ p.
          rest.relevance p
          ∙ step (λ d. d.relevance) (relevance_key p) p
              (one_score q v r (λ d. d.relevance) p (relevance_key p) (relevance_written q v r p));
      cost =
          rest.cost
          ∙ ap (λ (n : ℕ). r'.token_cost_usd + n) (fresh_cost-one q v r verdicts d.0)
          ∙ ap (λ (n : ℕ). n + fresh_cost r.judge_records verdicts) (one_cost q v r)
          ∙ omega arith;
      same_answer = rest.same_answer ∙ answer;
      same_scores = rest.same_scores ∙ scores;
      same_ranking = rest.same_ranking ∙ ranking;
    }
  where
    step :
        (score : JudgeVerdict → ℕ) (n p : ℕ)
        → lookup n (with_verdict q v r).judge_scores
          ≡ score_after score
              (lookup p r.judge_records)
              (if p == q then some v else none)
              (lookup n r.judge_scores)
        → score_after score
            (lookup p (with_verdict q v r).judge_records)
            (lookup p verdicts)
            (lookup n (with_verdict q v r).judge_scores)
          ≡ score_after score
              (lookup p r.judge_records)
              (if p == q then some v else lookup p verdicts)
              (lookup n r.judge_scores)
    step score n p one =
        ap
          (λ (a : Option JudgeVerdict).
            score_after score a (lookup p verdicts) (lookup n (with_verdict q v r).judge_scores))
          (one_record q v r p)
        ∙ ap
            (λ (s : Option ℕ).
              score_after score
                (kept_or (lookup p r.judge_records) (if p == q then some v else none))
                (lookup p verdicts) s)
            one
        ∙ score_after-twice score (lookup p r.judge_records) (lookup p verdicts) (p == q) v
            (lookup n r.judge_scores)
