-- ===== src/Runs/Results/Judged.antt =====
-- Verdicts are stored once for a profile (src/ragops/evaluation/repository.py).
mod Tests
use rag_eval_platform.Prelude.{ℕ, Bool, is_some, all}
use rag_eval_platform.Prelude.Dict.{Dict, lookup}
use rag_eval_platform.Runs.Store.{JudgeVerdict, EvalQueryResultRow}

-- the profile has judged the result
abbrev has_judged : ℕ → EvalQueryResultRow → Bool
has_judged p r = is_some (lookup p r.judge_records)

-- the profiles of the verdicts have all judged
abbrev all_judged : Dict JudgeVerdict → (ℕ → Bool) → Bool
all_judged verdicts test = all (λ e. test e.0) verdicts
