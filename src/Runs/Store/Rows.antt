-- ===== src/Runs/Store/Rows.antt =====
-- How the rows of runs and results may change (src/ragops/persistence/repositories.py and
-- src/ragops/evaluation/repository.py): the order in which each step takes a row forward.
use rag_eval_platform.Prelude.{
  ℕ, ◌+◌, ◌≤◌, ◌≡◌, refl, sym, ap, ◌∙◌, inl, inr, Bool, true, false, Option, none, some, [], ◌∷◌,
  arith, ◌==◌, is_some, if◌then◌else◌, Bool-cases, ok,
}
use rag_eval_platform.Prelude.Dict.{Dict, lookup, insert, lookup-insert}
use rag_eval_platform.Runs.{EvalRunState, place, state_in, finished_states, ensure_state_transition}
use rag_eval_platform.Runs.Store.{JudgeVerdict, EvalRunRow, EvalQueryResultRow, drifted, moved}
use rag_eval_platform.Runs.Results.{
  merged, with_answer, with_verdict, with_verdicts, faithfulness_key, relevance_key,
}
use rag_eval_platform.Generation.{AnswerResponse}
use rag_eval_platform.Runs.Lifecycle.{finished_stays, transition_place}

-- A run keeps its identity, its specification and its pins, and its state goes forward.
pub record RunGrows (r r' : EvalRunRow) : Type 0 where
  pub same_id : r'.id ≡ r.id
  pub same_spec : r'.spec ≡ r.spec
  pub same_time : r'.created_at ≡ r.created_at
  pub forward : place r.state ≤ place r'.state
  pub ended : state_in r.state finished_states ≡ true → r'.state ≡ r.state
  pub pinned :
      (v f : ℕ) → lookup v r.index_fingerprints ≡ some f → lookup v r'.index_fingerprints ≡ some f

-- A result keeps its key and its ranking, the answer that it has, and each verdict that it has.
pub record ResultGrows (r r' : EvalQueryResultRow) : Type 0 where
  pub same_run : r'.eval_run_id ≡ r.eval_run_id
  pub same_query : r'.query_id ≡ r.query_id
  pub same_variant : r'.variant ≡ r.variant
  pub same_ranking : r'.ranked_document_ids ≡ r.ranked_document_ids
  pub answered : (a : AnswerResponse) → r.generation_record ≡ some a → r'.generation_record ≡ some a
  pub judged :
      (p : ℕ) (j : JudgeVerdict)
      → lookup p r.judge_records ≡ some j
      → lookup p r'.judge_records ≡ some j

pub RunGrows-refl : (r : EvalRunRow) → RunGrows r r
RunGrows-refl r = record {
  same_id = refl;
  same_spec = refl;
  same_time = refl;
  forward = omega arith;
  ended = λ e. refl;
  pinned = λ v f h. h;
}

pub RunGrows-trans : (r s t : EvalRunRow) → RunGrows r s → RunGrows s t → RunGrows r t
RunGrows-trans r s t g h = record {
  same_id = h.same_id ∙ g.same_id;
  same_spec = h.same_spec ∙ g.same_spec;
  same_time = h.same_time ∙ g.same_time;
  forward = omega (arith, g.forward, h.forward);
  ended = λ e.
      let e' : state_in s.state finished_states ≡ true =
        ap (λ (x : EvalRunState). state_in x finished_states) (g.ended e) ∙ e in
      h.ended e' ∙ g.ended e;
  pinned = λ v f e. h.pinned v f (g.pinned v f e);
}

pub ResultGrows-refl : (r : EvalQueryResultRow) → ResultGrows r r
ResultGrows-refl r = record {
  same_run = refl;
  same_query = refl;
  same_variant = refl;
  same_ranking = refl;
  answered = λ a e. e;
  judged = λ p j e. e;
}

pub ResultGrows-trans :
    (r s t : EvalQueryResultRow) → ResultGrows r s → ResultGrows s t → ResultGrows r t
ResultGrows-trans r s t g h = record {
  same_run = h.same_run ∙ g.same_run;
  same_query = h.same_query ∙ g.same_query;
  same_variant = h.same_variant ∙ g.same_variant;
  same_ranking = h.same_ranking ∙ g.same_ranking;
  answered = λ a e. h.answered a (g.answered a e);
  judged = λ p j e. h.judged p j (g.judged p j e);
}

-- the steps on a run
pub moved-RunGrows :
    (now : ℕ) (state : EvalRunState) (row : EvalRunRow)
    → ensure_state_transition row.state state ≡ ok tt
    → RunGrows row (moved now state row)
moved-RunGrows now state row k = record {
  same_id = refl;
  same_spec = refl;
  same_time = refl;
  forward = transition_place row.state state k;
  ended = λ e. finished_stays row.state state e k;
  pinned = λ v f h. h;
}

pub counted-RunGrows :
    (done total : ℕ) (row : EvalRunRow)
    → RunGrows row (record row { completed_queries = done; total_queries = total })
counted-RunGrows done total row = record {
  same_id = refl;
  same_spec = refl;
  same_time = refl;
  forward = omega arith;
  ended = λ e. refl;
  pinned = λ v f h. h;
}

same_fingerprint : (f g : ℕ) → drifted f (some g) ≡ false → some f ≡ some g
same_fingerprint f g d = ground arith

pub pinned-RunGrows :
    (v f : ℕ) (row : EvalRunRow)
    → drifted f (lookup v row.index_fingerprints) ≡ false
    → RunGrows row (record row { index_fingerprints = insert v f row.index_fingerprints })
pinned-RunGrows v f row d = record {
  same_id = refl;
  same_spec = refl;
  same_time = refl;
  forward = omega arith;
  ended = λ e. refl;
  pinned = keep;
}
  where
    keep :
        (u g : ℕ)
        → lookup u row.index_fingerprints ≡ some g
        → lookup u (insert v f row.index_fingerprints) ≡ some g
    keep u g h = lookup-insert u v f row.index_fingerprints ∙ elim (Bool-cases (u == v)) [
      | inl k ↦
          let m : v ≡ u = ground (arith, k) in
          let l : lookup v row.index_fingerprints ≡ some g =
            ap (λ (n : ℕ). lookup n row.index_fingerprints) m ∙ h in
          rw k (same_fingerprint f g (ap (drifted f) (sym l) ∙ d))
      | inr k ↦ rw k h
    ]

-- the steps on a result, which leave it as it is where the work is done already
unless_done :
    (done : Bool) (r r' : EvalQueryResultRow)
    → (done ≡ false → ResultGrows r r')
    → ResultGrows r (if done then r else r')
unless_done true r r' g = ResultGrows-refl r
unless_done false r r' g = g refl

none_some {ℓ} : {A B : Type ℓ} (o : Option A) (a : A) → is_some o ≡ false → o ≡ some a → B
none_some none a h e = cc
none_some (some x) a h e = cc

pub with_answer-ResultGrows :
    (answer : AnswerResponse) (scores : Dict ℕ) (gold : Option ℕ) (r : EvalQueryResultRow)
    → ResultGrows r (with_answer answer scores gold r)
with_answer-ResultGrows answer scores gold r =
    unless_done (is_some r.generation_record) r
      (record r {
        generation_record = some answer;
        deterministic_scores = merged r.deterministic_scores scores;
        scifact_gold_label = gold;
        token_cost_usd = r.token_cost_usd + answer.usage.cost_usd;
      })
      (λ e. record {
        same_run = refl;
        same_query = refl;
        same_variant = refl;
        same_ranking = refl;
        answered = λ a h. none_some r.generation_record a e h;
        judged = λ p j h. h;
      })

insert_keeps :
    (p : ℕ) (verdict : JudgeVerdict) (d : Dict JudgeVerdict)
    → is_some (lookup p d) ≡ false
    → (q : ℕ) (j : JudgeVerdict) → lookup q d ≡ some j
    → lookup q (insert p verdict d) ≡ some j
insert_keeps p verdict d new q j h = lookup-insert q p verdict d ∙ elim (Bool-cases (q == p)) [
  | inl k ↦
      let m : q ≡ p = ground (arith, k) in
      none_some (lookup p d) j new (ap (λ (n : ℕ). lookup n d) (sym m) ∙ h)
  | inr k ↦ rw k h
]

with_verdict-ResultGrows :
    (p : ℕ) (verdict : JudgeVerdict) (r : EvalQueryResultRow)
    → ResultGrows r (with_verdict p verdict r)
with_verdict-ResultGrows p verdict r =
    unless_done (is_some (lookup p r.judge_records)) r
      (record r {
        judge_records = insert p verdict r.judge_records;
        judge_scores =
            insert (relevance_key p) verdict.relevance
              (insert (faithfulness_key p) verdict.faithfulness r.judge_scores);
        token_cost_usd = r.token_cost_usd + verdict.usage.cost_usd;
      })
      (λ e. record {
        same_run = refl;
        same_query = refl;
        same_variant = refl;
        same_ranking = refl;
        answered = λ a h. h;
        judged = insert_keeps p verdict r.judge_records e;
      })

pub with_verdicts-ResultGrows :
    (verdicts : Dict JudgeVerdict) (r : EvalQueryResultRow)
    → ResultGrows r (with_verdicts verdicts r)
unfolding with_verdicts
with_verdicts-ResultGrows [] r = ResultGrows-refl r
with_verdicts-ResultGrows ((p, verdict) ∷ verdicts) r =
    ResultGrows-trans r (with_verdict p verdict r)
      (with_verdicts verdicts (with_verdict p verdict r)) (with_verdict-ResultGrows p verdict r)
      (with_verdicts-ResultGrows verdicts (with_verdict p verdict r))
