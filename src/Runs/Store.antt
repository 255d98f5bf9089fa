-- ===== src/Runs/Store.antt =====
-- The tables of the evaluation runs and the repository of runs
-- (src/ragops/persistence/repositories.py and models.py). A method is an action on the tables; a
-- raise leaves what it has written, which the caller's transaction takes back.
pub mod Pinned
pub mod Pins
pub mod Rows
pub mod Evolution
use rag_eval_platform.Prelude.{
  ℕ, Bool, false, not, ◌||◌, Option, none, some, List, [], ◌∷◌, ◌++◌, ltb, ◌==◌, if◌then◌else◌, all,
  contains, names, Result, ok, err, Exec, or_raise, ◌>>=◌, ◌>>◌, raise_if, ℤ, pos_part, is_negative,
  Error, value_error, key_error,
}
use rag_eval_platform.Prelude.Dict.{Dict, lookup, lookup_or, insert, keys}
use rag_eval_platform.Generation.{AnswerResponse, TokenUsage}
use rag_eval_platform.Runs.{
  EvalRunState, created, state_in, finished_states, ensure_state_transition, EvalRunSpec,
}

-- `EvalRunRow`, and the contract `EvalRun` with the same fields
pub record EvalRunRow : Type 0 where
  pub id : ℕ
  pub spec : EvalRunSpec
  pub state : EvalRunState
  pub completed_queries : ℕ
  pub total_queries : ℕ
  pub git_commit : Option ℕ
  pub image_digest : Option ℕ
  pub index_fingerprints : Dict ℕ
  pub created_at : ℕ
  pub completed_at : Option ℕ

pub record EvalRunVariantRow : Type 0 where
  pub eval_run_id : ℕ
  pub name : ℕ
  pub configuration_hash : ℕ

pub record JudgeVerdict : Type 0 where
  pub faithfulness : ℕ
  pub relevance : ℕ
  pub rationale : ℕ
  pub judge_model : ℕ
  pub usage : TokenUsage

pub record EvalQueryResultRow : Type 0 where
  pub eval_run_id : ℕ
  pub query_id : ℕ
  pub variant : ℕ
  pub ranked_document_ids : List ℕ
  pub generation_record : Option AnswerResponse
  pub deterministic_scores : Dict ℕ
  pub judge_scores : Dict ℕ
  pub judge_records : Dict JudgeVerdict
  pub scifact_gold_label : Option ℕ
  pub token_cost_usd : ℕ

pub record Database : Type 0 where
  pub runs : List EvalRunRow
  pub run_variants : List EvalRunVariantRow
  pub results : List EvalQueryResultRow

abbrev pub Session : Type 0 → Type 0
Session A = Exec Database Error A

abbrev pub find_run : ℕ → List EvalRunRow → Option EvalRunRow
find_run i [] = none
find_run i (r ∷ runs) = if i == r.id then some r else find_run i runs

-- the flush of a changed run
abbrev pub update_run : ℕ → EvalRunRow → List EvalRunRow → List EvalRunRow
update_run i r' [] = []
update_run i r' (r ∷ runs) = (if i == r.id then r' else r) ∷ update_run i r' runs

-- the row of a run, or a KeyError
abbrev pub load_run : ℕ → Session EvalRunRow
load_run i db = or_raise (find_run i db.runs) key_error db

abbrev pub save_run : EvalRunRow → Session EvalRunRow
save_run r db = (ok r, record db { runs = update_run r.id r db.runs })

abbrev pub variant_rows : ℕ → Dict ℕ → List ℕ → List EvalRunVariantRow
variant_rows run_id hashes [] = []
variant_rows run_id hashes (name ∷ names) =
    record { eval_run_id = run_id; name = name; configuration_hash = lookup_or name 0 hashes }
    ∷ variant_rows run_id hashes names

-- `create`, with the fresh id and the database's stamp
unfoldable pub create : ℕ → ℕ → EvalRunSpec → Dict ℕ → Option ℕ → Option ℕ → Session EvalRunRow
create run_id stamp spec hashes git digest db =
    if not (all (λ v. contains v (keys hashes)) spec.variants)
    then (err value_error, db)
    else (let row : EvalRunRow = record {
      id = run_id;
      spec = spec;
      state = created;
      completed_queries = 0;
      total_queries = 0;
      git_commit = git;
      image_digest = digest;
      index_fingerprints = [];
      created_at = stamp;
      completed_at = none;
    } in
        (
          ok row,
          record db {
            runs = db.runs ++ row ∷ [];
            run_variants = db.run_variants ++ variant_rows run_id hashes spec.variants;
          },
        ))

abbrev pub get_variant_hashes : ℕ → List EvalRunVariantRow → Dict ℕ
get_variant_hashes run_id [] = []
get_variant_hashes run_id (r ∷ rows) =
    let rest = get_variant_hashes run_id rows in
    if r.eval_run_id == run_id then (r.name, r.configuration_hash) ∷ rest else rest

-- another fingerprint is pinned for the variant
abbrev pub drifted : ℕ → Option ℕ → Bool
drifted fingerprint none = false
drifted fingerprint (some existing) = not (existing == fingerprint)

abbrev pub pin_on : ℕ → ℕ → EvalRunRow → Session EvalRunRow
pin_on variant fingerprint row db =
    if not (contains variant row.spec.variants)
    then (err value_error, db)
    else (if drifted fingerprint (lookup variant row.index_fingerprints)
        then (err value_error, db)
        else save_run
            (record row { index_fingerprints = insert variant fingerprint row.index_fingerprints })
            db)

unfoldable pub pin_index_fingerprint : ℕ → ℕ → ℕ → Session EvalRunRow
pin_index_fingerprint run_id variant fingerprint = load_run run_id >>= pin_on variant fingerprint

-- the row in its new state
abbrev pub moved : ℕ → EvalRunState → EvalRunRow → EvalRunRow
moved now state row = record row {
  state = state;
  completed_at = if state_in state finished_states then some now else row.completed_at;
}

abbrev pub move_checked : ℕ → EvalRunState → EvalRunRow → Result Error Unit → Session EvalRunRow
move_checked now state row (err e) db = (err e, db)
move_checked now state row (ok checked) db = save_run (moved now state row) db

abbrev pub move_on : ℕ → EvalRunState → EvalRunRow → Session EvalRunRow
move_on now state row = move_checked now state row (ensure_state_transition row.state state)

unfoldable pub set_state : ℕ → ℕ → EvalRunState → Session EvalRunRow
set_state now run_id state = load_run run_id >>= move_on now state

abbrev pub progress_on : ℕ → ℕ → EvalRunRow → Session EvalRunRow
progress_on done total row db =
    if ltb done row.completed_queries
    then (err value_error, db)
    else (if not (row.total_queries == 0 || row.total_queries == total)
        then (err value_error, db)
        else save_run (record row { completed_queries = done; total_queries = total }) db)

unfoldable pub set_progress : ℕ → ℤ → ℤ → Session EvalRunRow
set_progress run_id done total =
    raise_if (is_negative done || is_negative total || ltb (pos_part total) (pos_part done))
      value_error
    >> load_run run_id
    >>= progress_on (pos_part done) (pos_part total)
