-- ===== src/Runs/Lifecycle.antt =====
-- The lifecycle of a run, along any sequence of transitions (src/ragops/contracts/evaluation.py).
mod Tests
use rag_eval_platform.Prelude.{
  ℕ, ◌≤◌, ◌≡◌, refl, sym, ap, ◌∙◌, ◌≢◌, Bool, true, false, not, ◌&&◌, ◌||◌, List, [], ◌∷◌, arith,
  leb→le, ltb, leb, ◌==◌, if◌then◌else◌, Result, ok, err, Error,
}
use rag_eval_platform.Runs.{
  EvalRunState, created, queued, preparing, retrieving, generating, judging, scoring, completed,
  failed, cancelled, place, same_state, state_in, finished_states, ensure_state_transition,
}

-- the state that a sequence of transitions leads to
pub walk : EvalRunState → List EvalRunState → Result Error EvalRunState
walk s [] = ok s
walk s (t ∷ targets) = elim (ensure_state_transition s t) [
  | err e ↦ err e
  | ok moved ↦ walk t targets
]

abbrev is_ok : Result Error Unit → Bool
is_ok (ok u) = true
is_ok (err e) = false

abbrev of_place : ℕ → EvalRunState
of_place n =
    if n == 0
    then created
    else (if n == 1
        then queued
        else (if n == 2
            then preparing
            else (if n == 3
                then retrieving
                else (if n == 4
                    then generating
                    else (if n == 5
                        then judging
                        else (if n == 6
                            then scoring
                            else (if n == 7
                                then completed
                                else (if n == 8 then failed else cancelled))))))))

of_place-place : (s : EvalRunState) → of_place (place s) ≡ s
of_place-place created = refl
of_place-place queued = refl
of_place-place preparing = refl
of_place-place retrieving = refl
of_place-place generating = refl
of_place-place judging = refl
of_place-place scoring = refl
of_place-place completed = refl
of_place-place failed = refl
of_place-place cancelled = refl

pub same_state_iff : (s t : EvalRunState) → same_state s t ≡ true → s ≡ t
same_state_iff s t h =
    let same : place s ≡ place t = ground (arith, h) in
    sym (of_place-place s) ∙ ap of_place same ∙ of_place-place t

-- a test of all states
abbrev for_all : (EvalRunState → Bool) → Bool
for_all test =
    test created
    && test queued
    && test preparing
    && test retrieving
    && test generating
    && test judging
    && test scoring
    && test completed
    && test failed
    && test cancelled

for_all_at : (test : EvalRunState → Bool) (s : EvalRunState) → for_all test ≡ true → test s ≡ true
for_all_at test created h = ground (arith, h)
for_all_at test queued h = ground (arith, h)
for_all_at test preparing h = ground (arith, h)
for_all_at test retrieving h = ground (arith, h)
for_all_at test generating h = ground (arith, h)
for_all_at test judging h = ground (arith, h)
for_all_at test scoring h = ground (arith, h)
for_all_at test completed h = ground (arith, h)
for_all_at test failed h = ground (arith, h)
for_all_at test cancelled h = ground (arith, h)

implies : Bool → Bool → Bool
implies a b = not a || b

apply_implies : (a b : Bool) → implies a b ≡ true → a ≡ true → b ≡ true
unfolding implies
apply_implies a b h k = ground arith

abbrev allowed : EvalRunState → EvalRunState → Bool
allowed s t = is_ok (ensure_state_transition s t)

abbrev stopped : List EvalRunState
stopped = failed ∷ cancelled ∷ []

-- the states that every finished run has passed
abbrev main_states : List EvalRunState
main_states = queued ∷ preparing ∷ retrieving ∷ scoring ∷ completed ∷ []

abbrev ahead_test : EvalRunState → EvalRunState → EvalRunState → Bool
ahead_test q s t =
    implies (state_in q main_states && ltb (place s) (place q) && allowed s t)
      (same_state q t || (ltb (place t) (place q) || state_in t stopped))

-- A transition does not skip a main state, unless it stops the run.
ahead_all : for_all (λ q. for_all (λ s. for_all (λ t. ahead_test q s t))) ≡ true
unfolding ensure_state_transition implies
ahead_all = refl

finished_test : EvalRunState → EvalRunState → Bool
finished_test s t = implies (state_in s finished_states && allowed s t) (same_state t s)

finished_all : for_all (λ s. for_all (λ t. finished_test s t)) ≡ true
unfolding ensure_state_transition implies finished_test
finished_all = refl

pub finished_stays :
    (s t : EvalRunState)
    → state_in s finished_states ≡ true
    → ensure_state_transition s t ≡ ok tt
    → t ≡ s
unfolding finished_test
finished_stays s t h k = same_state_iff t s (
    apply_implies (state_in s finished_states && allowed s t) (same_state t s)
      (for_all_at (λ t. finished_test s t) t
        (for_all_at (λ s. for_all (λ t. finished_test s t)) s finished_all))
      (rw (h, k) refl))

place_test : EvalRunState → EvalRunState → Bool
place_test s t = implies (allowed s t) (leb (place s) (place t))

place_all : for_all (λ s. for_all (λ t. place_test s t)) ≡ true
unfolding ensure_state_transition implies place_test
place_all = refl

-- A transition goes forward in the enumeration.
pub transition_place :
    (s t : EvalRunState) → ensure_state_transition s t ≡ ok tt → place s ≤ place t
unfolding place_test
transition_place s t k = leb→le (place s) (place t) (
    apply_implies (allowed s t) (leb (place s) (place t))
      (for_all_at (λ t. place_test s t) t
        (for_all_at (λ s. for_all (λ t. place_test s t)) s place_all))
      (rw k refl))

-- A finished run stays as it is: every sequence of transitions that is accepted from a completed,
-- failed or cancelled state leads to that state.
walk-finished :
    (s t : EvalRunState) (targets : List EvalRunState)
    → state_in s finished_states ≡ true
    → walk s targets ≡ ok t
    → t ≡ s
unfolding walk
walk-finished s t [] h e = ground (arith, e)
walk-finished s t (u ∷ targets) h e =
    step (ensure_state_transition s u) refl (walk-finished u t targets) e
  where
    step :
        (moved : Result Error Unit)
        → ensure_state_transition s u ≡ moved
        → (state_in u finished_states ≡ true → walk u targets ≡ ok t → t ≡ u)
        → (elim moved [ err e ↦ err e | ok m ↦ walk u targets ]) ≡ ok t
        → t ≡ s
    step (err x) k ih e = cc
    step (ok m) k ih e =
        let same : u ≡ s = finished_stays s u h k in
        ih (ap (λ (x : EvalRunState). state_in x finished_states) same ∙ h) e ∙ same

stopped_open :
    (u : EvalRunState) (targets : List EvalRunState)
    → state_in u stopped ≡ true
    → walk u targets ≢ ok completed
stopped_open u targets h e =
    let same : completed ≡ u = walk-finished u completed targets (ground arith) e in
    clash (ap (λ (x : EvalRunState). state_in x stopped) same ∙ h)
  where
    clash : state_in completed stopped ≢ true
    clash e = cc

ahead_of :
    (q s t : EvalRunState)
    → state_in q main_states ≡ true
    → ltb (place s) (place q) ≡ true
    → ensure_state_transition s t ≡ ok tt
    → (same_state q t || (ltb (place t) (place q) || state_in t stopped)) ≡ true
ahead_of q s t h l k =
    apply_implies (state_in q main_states && ltb (place s) (place q) && allowed s t)
      (same_state q t || (ltb (place t) (place q) || state_in t stopped))
      (for_all_at (λ t. ahead_test q s t) t
        (for_all_at (λ s. for_all (λ t. ahead_test q s t)) s
          (for_all_at (λ q. for_all (λ s. for_all (λ t. ahead_test q s t))) q ahead_all)))
      (rw (h, l, k) refl)

late_test : EvalRunState → Bool
late_test q = implies (state_in q main_states && ltb (place completed) (place q)) false

late_all : for_all late_test ≡ true
unfolding late_test implies
late_all = refl

main_in_time :
    (q : EvalRunState) → state_in q main_states ≡ true → ltb (place completed) (place q) ≢ true
unfolding late_test
main_in_time q h l = true_is_true (
    apply_implies (state_in q main_states && ltb (place completed) (place q)) false
      (for_all_at late_test q late_all) (rw (h, l) refl))
  where
    true_is_true : false ≢ true
    true_is_true e = cc

walk-passes :
    (q s : EvalRunState) (targets : List EvalRunState)
    → state_in q main_states ≡ true
    → ltb (place s) (place q) ≡ true
    → walk s targets ≡ ok completed
    → state_in q targets ≡ true
unfolding walk
walk-passes q s [] h l e =
    let same : s ≡ completed = ground (arith, e) in
    absurd (main_in_time q h (ap (λ (x : EvalRunState). ltb (place x) (place q)) (sym same) ∙ l))
walk-passes q s (u ∷ targets) h l e =
    step (ensure_state_transition s u) refl (walk-passes q u targets h) e
  where
    step :
        (moved : Result Error Unit)
        → ensure_state_transition s u ≡ moved
        → (ltb (place u) (place q) ≡ true
            → walk u targets ≡ ok completed
            → state_in q targets ≡ true)
        → (elim moved [ err e ↦ err e | ok m ↦ walk u targets ]) ≡ ok completed
        → state_in q (u ∷ targets) ≡ true
    step (err x) k ih e = cc
    step (ok m) k ih e = ground (arith, ahead_of q s u h l k, ih, stopped_open u targets)

-- A run that has completed has been queued, prepared, retrieved for and scored: each of these
-- states, and the completed one, is among the targets of any sequence of transitions that leads
-- from `created` to `completed`.
pub walk-main_states :
    (q : EvalRunState) (targets : List EvalRunState)
    → state_in q main_states ≡ true
    → walk created targets ≡ ok completed
    → state_in q targets ≡ true
walk-main_states q targets h e = walk-passes q created targets h (ground arith) e
