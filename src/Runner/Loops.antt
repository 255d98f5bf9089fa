-- ===== src/Runner/Loops.antt =====
-- The retrieval loops of the runner (src/ragops/evaluation/runner.py), by the rules for tasks.
use rag_eval_platform.Prelude.{
  ℕ, ◌≡◌, Bool, false, not, Option, none, some, List, [], ◌∷◌, ◌==◌, All, Result, ok, pure,
  or_raise, ◌>>=◌, ◌>>◌, raise_if, Error, value_error, key_error,
}
use rag_eval_platform.Prelude.Dict.{Dict, lookup, insert}
use rag_eval_platform.Runs.Store.{Database, Session, pin_index_fingerprint}
use rag_eval_platform.Runs.Results.{add_result}
use rag_eval_platform.Retrieval.{SearchResponse}
use rag_eval_platform.Metrics.{RetrievalMetricScores, compute_retrieval_metrics}
use rag_eval_platform.Runs.Datasets.{EvaluationQuery}
use rag_eval_platform.Runner.{EvaluationRunner, in_transaction, ask, lift}
use rag_eval_platform.Runner.Retrieving.{
  RunWork, retrieval_request, check_hash, check_index, ranked_ids, new_result, save_result,
  keep_response, expected_hash, take_response, evaluate_one, is_done, evaluate_missing,
  evaluate_variants,
}
use rag_eval_platform.Runs.Store.Evolution.{Evolves}
use rag_eval_platform.Runs.Store.Evolution.Steps.{pin_index_fingerprint-Evolves, add_result-Evolves}
use rag_eval_platform.Runner.Triples.{
  Triple, Grows, then_rule, weaken_rule, if_rule, raise_if_rule, or_raise_rule, lift_rule, ask_rule,
  call_rule,
}
use rag_eval_platform.Runner.Rules.{returned-Evolves}
use rag_eval_platform.Runner.Progress.{HasResult, HasResult-Grows, add_result_ok, Done}

-- Steps that are only known to keep what holds.
module _ (R : Database → Type 0) (P : Database → Type 0)
    (down : (db : Database) → P db → R db) where
  pub raise_if_keeps : (b : Bool) (x : Error) → Triple P (raise_if b x) (λ u. P) R
  raise_if_keeps b x =
      weaken_rule R P P (λ u db. (b ≡ false) × P db) (λ u. P) (raise_if b x) (λ db p. p)
        (λ u db p. p.1) (raise_if_rule R P down b x)

  pub or_raise_keeps : {A : Type 0} (o : Option A) (x : Error) → Triple P (or_raise o x) (λ a. P) R
  or_raise_keeps o x =
      weaken_rule R P P (λ a db. (o ≡ some a) × P db) (λ a. P) (or_raise o x) (λ db p. p)
        (λ a db p. p.1) (or_raise_rule R P down o x)

  pub lift_keeps : {A : Type 0} (r : Result Error A) → Triple P (lift r) (λ a. P) R
  lift_keeps r =
      weaken_rule R P P (λ a db. (r ≡ ok a) × P db) (λ a. P) (lift r) (λ db p. p) (λ a db p. p.1)
        (lift_rule R P down r)

  module _ (grows : Grows P) where
    pub ask_keeps : {A : Type 0} (f : ℕ → Result Error A) → Triple P (ask f) (λ a. P) R
    ask_keeps f =
        weaken_rule R P P (λ a db. ((now : ℕ) × (f now ≡ ok a)) × P db) (λ a. P) (ask f) (λ db p. p)
          (λ a db p. p.1) (ask_rule R P down grows f)

    -- a transaction that takes the database forward, and what it gives
    pub call_adds :
        {A : Type 0} (Q : A → Database → Type 0) (m : ℕ → Session A)
        → ((now : ℕ) (db : Database) → Evolves db (m now db).1)
        → ((now : ℕ) (db : Database) (a : A) (db' : Database) → m now db ≡ (ok a, db') → Q a db')
        → Triple P (in_transaction m) (λ a db. P db × Q a db) R
    call_adds Q m forward gives =
        call_rule R P down grows (λ a db. P db × Q a db) m
          (λ now db a db' p e. (
            grows db db' (returned-Evolves (m now) a db db' (forward now db) e) p,
            gives now db a db' e,
          ))

    pub call_keeps :
        {A : Type 0} (m : ℕ → Session A)
        → ((now : ℕ) (db : Database) → Evolves db (m now db).1)
        → Triple P (in_transaction m) (λ a. P) R
    call_keeps m forward =
        call_rule R P down grows (λ a. P) m
          (λ now db a db' p e.
            grows db db' (returned-Evolves (m now) a db db' (forward now db) e) p)

module _ (work : RunWork) (q : EvaluationQuery) where
  abbrev Next : ℕ → (Database → Type 0) → Database → Type 0
  Next v P db = P db × HasResult work.run_id q.id v db

  Next-Grows : (v : ℕ) (P : Database → Type 0) → Grows P → Grows (Next v P)
  Next-Grows v P grows a b g p = (grows a b g p.0, HasResult-Grows work.run_id q.id v a b g p.1)

  abbrev pub AllVariants : List ℕ → Database → Type 0
  AllVariants variants db = All (λ v. HasResult work.run_id q.id v db) variants

module _ (R : Database → Type 0) (e : EvaluationRunner) (work : RunWork) (q : EvaluationQuery) where
  module _ (P : Database → Type 0) (down : (db : Database) → P db → R db) (grows : Grows P)
      (v : ℕ) where
    -- what the evaluation of the variant adds
    Added : Dict ℕ → Database → Type 0
    Added pins db = P db × HasResult work.run_id q.id v db

    check_index_rule :
        (response : SearchResponse) (pins : Dict ℕ) (o : Option ℕ)
        → Triple P (check_index work v response pins o) (λ pins. P) R
    check_index_rule response pins none =
        then_rule R P (λ a. P) (λ a. P)
          (in_transaction (λ now. pin_index_fingerprint work.run_id v response.index_fingerprint))
          (λ a. pure (insert v response.index_fingerprint pins))
          (call_keeps R P down grows
            (λ now. pin_index_fingerprint work.run_id v response.index_fingerprint)
            (λ now db. pin_index_fingerprint-Evolves work.run_id v response.index_fingerprint db))
          (λ a w p. p)
    check_index_rule response pins (some expected) =
        then_rule R P (λ a. P) (λ a. P)
          (raise_if (not (response.index_fingerprint == expected)) value_error) (λ a. pure pins)
          (raise_if_keeps R P down (not (response.index_fingerprint == expected)) value_error)
          (λ a w p. p)

    keep_response_rule :
        (response : SearchResponse) (pins : Dict ℕ)
        → Triple P (keep_response e work q v response pins) Added R
    unfolding Added
    keep_response_rule response pins =
        then_rule R P (λ (b : Bool) db. P db × HasResult work.run_id q.id v db) Added
          (lift scores >>= save_result work q v (ranked_ids response)) (λ b. pure pins)
          (then_rule R P (λ a. P) (λ b db. P db × HasResult work.run_id q.id v db) (lift scores)
            (save_result work q v (ranked_ids response)) (lift_keeps R P down scores)
            (λ s.
              call_adds R P down grows (λ b db. HasResult work.run_id q.id v db)
                (λ now. add_result (new_result work q v (ranked_ids response) s))
                (λ now db. add_result-Evolves (new_result work q v (ranked_ids response) s) db)
                (λ now db b db' h.
                  add_result_ok (new_result work q v (ranked_ids response) s) b db db' h)))
          (λ b w p. p)
      where
        scores : Result Error RetrievalMetricScores
        scores = compute_retrieval_metrics e.ops (ranked_ids response) q.qrels

    take_response_rule :
        (pins : Dict ℕ) (response : SearchResponse)
        → Triple P (take_response e work q v pins response) Added R
    take_response_rule pins response =
        then_rule R P (λ a. P) Added
          (expected_hash v work.hashes
            >>= check_hash response
            >> check_index work v response pins (lookup v pins))
          (keep_response e work q v response)
          (then_rule R P (λ a. P) (λ a. P) (expected_hash v work.hashes >>= check_hash response)
            (λ a. check_index work v response pins (lookup v pins))
            (then_rule R P (λ a. P) (λ a. P) (expected_hash v work.hashes) (check_hash response)
              (or_raise_keeps R P down (lookup v work.hashes) key_error)
              (λ expected.
                raise_if_keeps R P down (not (response.variant_hash == expected)) value_error))
            (λ a. check_index_rule response pins (lookup v pins)))
          (λ pins. keep_response_rule response pins)

    evaluate_one_rule : (pins : Dict ℕ) → Triple P (evaluate_one e work q v pins) Added R
    evaluate_one_rule pins =
        then_rule R P (λ a. P) Added (ask (λ now. e.search now (retrieval_request work q v)))
          (take_response e work q v pins)
          (ask_keeps R P down grows (λ now. e.search now (retrieval_request work q v)))
          (take_response_rule pins)

    evaluate_missing_rule :
        ((db : Database) → P db → Done work.run_id work.completed db)
        → (pins : Dict ℕ)
        → Triple P
            (evaluate_missing e work q v pins)
            (λ after db. P db × HasResult work.run_id q.id v db)
            R
    unfolding Added
    evaluate_missing_rule done pins =
        if_rule R P (λ after db. P db × HasResult work.run_id q.id v db)
          (is_done q.id v work.completed) (pure pins) (evaluate_one e work q v pins)
          (λ k w p. (p, done w.db p q.id v k)) (λ k. evaluate_one_rule pins)

  -- the inner loop
  pub evaluate_variants_rule :
      (variants : List ℕ) (P : Database → Type 0)
      → ((db : Database) → P db → R db)
      → Grows P
      → ((db : Database) → P db → Done work.run_id work.completed db)
      → (pins : Dict ℕ)
      → Triple P
          (evaluate_variants e work q variants pins)
          (λ after db. P db × AllVariants work q variants db)
          R
  unfolding evaluate_variants
  evaluate_variants_rule [] P down grows done pins = λ w p. (p, tt)
  evaluate_variants_rule (v ∷ variants) P down grows done pins =
      then_rule R P (λ after. Next work q v P)
        (λ after db. P db × AllVariants work q (v ∷ variants) db) (evaluate_missing e work q v pins)
        (evaluate_variants e work q variants) (evaluate_missing_rule P down grows v done pins)
        (λ after.
          weaken_rule R (Next work q v P) (Next work q v P)
            (λ a db. Next work q v P db × AllVariants work q variants db)
            (λ a db. P db × AllVariants work q (v ∷ variants) db)
            (evaluate_variants e work q variants after) (λ db p. p)
            (λ a db p. (p.0.0, (p.0.1, p.1)))
            (evaluate_variants_rule variants (Next work q v P) (λ db p. down db p.0)
              (Next-Grows work q v P grows) (λ db p. done db p.0) after))

pub AllVariants-Grows :
    (work : RunWork) (q : EvaluationQuery) (variants : List ℕ) → Grows (AllVariants work q variants)
AllVariants-Grows work q [] a b g h = tt
AllVariants-Grows work q (v ∷ variants) a b g h =
    (HasResult-Grows work.run_id q.id v a b g h.0, AllVariants-Grows work q variants a b g h.1)

-- every query has a result for every variant
abbrev pub AllResults : RunWork → List EvaluationQuery → Database → Type 0
AllResults work queries db = All (λ q. AllVariants work q work.variants db) queries

AllResults-Grows :
    (work : RunWork) (queries : List EvaluationQuery) → Grows (AllResults work queries)
AllResults-Grows work [] a b g h = tt
AllResults-Grows work (q ∷ queries) a b g h =
    (AllVariants-Grows work q work.variants a b g h.0, AllResults-Grows work queries a b g h.1)
