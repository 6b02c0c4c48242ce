-- ===== src/Inference/Engine/Batch.antt =====
-- `predict_batch` of src/apexpulse/inference/engine.py compared with `predict`.
use apex_pulse.Prelude.{
  ℕ, ◌+◌, ◌*◌, ◌≡◌, refl, sym, ap, ◌∙◌, Bool, true, false, not, inl, inr, Option, none, some, List,
  [], ◌∷◌, ◌++◌, map, length, length-append, count, arith, Bool-cases, if◌then◌else◌,
}
use mathlib.Core.List.{append_assoc}
use mathlib.Core.Path.{subst}
use apex_pulse.Prelude.Int.{pos}
use apex_pulse.Prelude.Runs.{Runs, Runs-imp}
use apex_pulse.Prelude.Rational.{Rational, whole}
use apex_pulse.Schema.Models.{MatchState}
use apex_pulse.Stream.Window.{WindowedMetrics}
use apex_pulse.Features.Extractor.{extract, is_scoreable}
use apex_pulse.Inference.Calibrator.{apply, is_identity}
use apex_pulse.Inference.Engine.{
  Prediction, LatencyStats, InferenceEngine, IsBooster, record_latency, set_at, present,
  scoreable_from, calibrated, skipped_prediction, scored_prediction, predict, skipped_results,
  fill_results, finish, predict_batch,
}

map-map :
    {A B C : Type 0} (f : A → B) (g : B → C) (xs : List A)
    → map g (map f xs) ≡ map (λ x. g (f x)) xs
map-map f g [] = refl
map-map f g (x ∷ xs) = ap (λ ys. g (f x) ∷ ys) (map-map f g xs)

map-if :
    {A B : Type 0} (c : Bool) (f : A → B) (g : B → B) (xs : List A)
    → (if c then map f xs else map g (map f xs)) ≡ map (λ x. if c then f x else g (f x)) xs
map-if true f g xs = refl
map-if false f g xs = map-map f g xs

set_at-append :
    {A : Type 0} (pre : List A) (v x : A) (xs : List A)
    → set_at (length pre) v (pre ++ x ∷ xs) ≡ pre ++ v ∷ xs
set_at-append [] v x xs = refl
set_at-append (y ∷ pre) v x xs = ap (λ ys. y ∷ ys) (set_at-append pre v x xs)

present-map :
    {A B : Type 0} (f : A → B) (xs : List A) → present (map (λ x. some (f x)) xs) ≡ map f xs
present-map f [] = refl
present-map f (x ∷ xs) = ap (λ ys. f x ∷ ys) (present-map f xs)

module _ {Number : Type 0} (engine : InferenceEngine Number) where
  -- A prediction without the time that it took.
  abbrev pub untimed : Prediction Number → Prediction Number
  untimed p = record p { latency_ms = whole (pos 0) }

  abbrev pub untimed_of : Option (Prediction Number × LatencyStats) → Option (Prediction Number)
  untimed_of none = none
  untimed_of (some (p, _)) = some (untimed p)

  module _ (law : IsBooster engine.booster) where
    -- The calibrated score of one row.
    abbrev point : List Rational → Number
    point values =
        let score = law.score engine.trees values in
        if is_identity engine.calibrator
        then score
        else engine.booster.interp engine.calibrator.breakpoints_x engine.calibrator.breakpoints_y
            score

    calibrated-map : (matrix : List (List Rational)) → calibrated engine matrix ≡ map point matrix
    unfolding apply
    calibrated-map matrix =
        ap (apply engine.booster.interp engine.calibrator) (law.rows engine.trees matrix)
        ∙ map-if (is_identity engine.calibrator) (law.score engine.trees)
            (engine.booster.interp engine.calibrator.breakpoints_x engine.calibrator.breakpoints_y)
            matrix

    abbrev result : Rational → MatchState → Prediction Number
    result latency_ms s =
        if is_scoreable s
        then scored_prediction engine latency_ms [] s (point (extract true s none))
        else skipped_prediction engine (whole (pos 0)) s

    -- What the loops leave, with `n` scored states.
    record Filled (results : List (Option (Prediction Number))) (n : ℕ) (st : LatencyStats)
        (r : List (Option (Prediction Number)) × LatencyStats) : Type 0 where
      filled : r.0 ≡ results
      counted : r.1.total_predictions ≡ st.total_predictions + n
      same_skipped : r.1.skipped ≡ st.skipped

    -- One state more, at the end of what was there.
    Filled-next :
        (pre : List (Option (Prediction Number))) (v : Option (Prediction Number))
        (rest : List (Option (Prediction Number))) (k n : ℕ) (st st' : LatencyStats)
        (r : List (Option (Prediction Number)) × LatencyStats)
        → st'.total_predictions ≡ st.total_predictions + k
        → st'.skipped ≡ st.skipped
        → Filled ((pre ++ v ∷ []) ++ rest) n st' r
        → Filled (pre ++ v ∷ rest) (k + n) st r
    Filled-next pre v rest k n st st' r e f h = record {
      filled = h.filled ∙ append_assoc pre (v ∷ []) rest;
      counted = omega (arith, h.counted, e);
      same_skipped = h.same_skipped ∙ f;
    }

    fill_results-Filled :
        (latency_ms : Rational) (states : List MatchState)
        (pre results : List (Option (Prediction Number))) (i : ℕ) (st : LatencyStats)
        → i ≡ length pre
        → results ≡ pre ++ skipped_results engine states
        → Runs
            (Filled
              (pre ++ map (λ s. some (result latency_ms s)) states)
              (count is_scoreable states)
              st)
            (fill_results engine latency_ms
              (scoreable_from i states)
              (map (λ e. point (extract true e.1 none)) (scoreable_from i states))
              (results, st))
    unfolding fill_results scoreable_from skipped_results record_latency
    fill_results-Filled latency_ms [] pre results i st at e = record {
      filled = e;
      counted = omega arith;
      same_skipped = refl;
    }
    fill_results-Filled latency_ms (s ∷ states) pre results i st at e =
        elim (Bool-cases (is_scoreable s)) [
          | inl live ↦
              let v =
                some (scored_prediction engine latency_ms [] s (point (extract true s none))) in
              let stored : set_at i v results ≡ (pre ++ v ∷ []) ++ skipped_results engine states =
                ap (λ j. set_at j v results) at
                ∙ ap (set_at (length pre) v) (rw live at e)
                ∙ set_at-append pre v none (skipped_results engine states)
                ∙ sym (append_assoc pre (v ∷ []) (skipped_results engine states)) in
              rw live (
                Runs-imp
                  (Filled ((pre ++ v ∷ []) ++ map (λ s. some (result latency_ms s)) states)
                    (count is_scoreable states) (record_latency latency_ms st))
                  (Filled (pre ++ v ∷ map (λ s. some (result latency_ms s)) states)
                    (1 + count is_scoreable states) st)
                  _
                  (fill_results-Filled latency_ms states (pre ++ v ∷ []) (set_at i v results)
                    (i + 1) (record_latency latency_ms st)
                    (omega (arith, at, length-append pre (v ∷ []))) stored)
                  λ r h. Filled-next pre v _ 1 _ st (record_latency latency_ms st) r refl refl h)
          | inr idle ↦
              let v = some (skipped_prediction engine (whole (pos 0)) s) in
              rw idle (
                Runs-imp
                  (Filled ((pre ++ v ∷ []) ++ map (λ s. some (result latency_ms s)) states)
                    (count is_scoreable states) st)
                  (Filled (pre ++ v ∷ map (λ s. some (result latency_ms s)) states)
                    (0 + count is_scoreable states) st)
                  _
                  (fill_results-Filled latency_ms states (pre ++ v ∷ []) results (i + 1) st
                    (omega (arith, at, length-append pre (v ∷ [])))
                    ((rw idle at e)
                      ∙ sym (append_assoc pre (v ∷ []) (skipped_results engine states))))
                  λ r h. Filled-next pre v _ 0 _ st st r (omega arith) refl h)
        ]

    Runs-finish :
        (P : List (Option (Prediction Number)) × LatencyStats → Type 0)
        (Q : List (Prediction Number) × LatencyStats → Type 0)
        (o : Option (List (Option (Prediction Number)) × LatencyStats))
        → Runs P o
        → ((r : List (Option (Prediction Number)) × LatencyStats) → P r → Q (present r.0, r.1))
        → Runs Q (finish engine o)
    Runs-finish P Q none h f = h
    Runs-finish P Q (some (results, stats)) h f = f (results, stats) h

    -- A prediction is made, and it is scored exactly if the state can be.
    pub predict-scored :
        (elapsed : ℕ) (s : MatchState) (metrics : Option WindowedMetrics) (include_features : Bool)
        (st : LatencyStats)
        → Runs
            (λ r. r.0.scored ≡ is_scoreable s)
            (predict engine elapsed s metrics include_features st)
    unfolding predict
    predict-scored elapsed s metrics include_features st = elim (Bool-cases (is_scoreable s)) [
      | inl live ↦ rw live (rw (calibrated-map (extract true s metrics ∷ [])) refl)
      | inr idle ↦ rw idle refl
    ]

    alone-result :
        (elapsed : ℕ) (s : MatchState) (st : LatencyStats)
        → untimed_of (predict engine elapsed s none false st) ≡ some (result (whole (pos 0)) s)
    unfolding predict
    alone-result elapsed s st = elim (Bool-cases (is_scoreable s)) [
      | inl live ↦ rw live (rw (calibrated-map (extract true s none ∷ [])))
      | inr idle ↦ rw idle
    ]

    untimed-result :
        (latency_ms : Rational) (s : MatchState)
        → untimed (result latency_ms s) ≡ result (whole (pos 0)) s
    untimed-result latency_ms s = elim (Bool-cases (is_scoreable s)) [
      | inl live ↦ rw live
      | inr idle ↦ rw idle
    ]

    same_results :
        (elapsed : ℕ) (st : LatencyStats) (latency_ms : Rational) (states : List MatchState)
        → map (λ p. some (untimed p)) (map (result latency_ms) states)
          ≡ map (λ s. untimed_of (predict engine elapsed s none false st)) states
    same_results elapsed st latency_ms [] = refl
    same_results elapsed st latency_ms (s ∷ states) =
        let rest = map (λ p. some (untimed p)) (map (result latency_ms) states) in
        let single = untimed_of (predict engine elapsed s none false st) in
        ap (λ p. some p ∷ rest) (untimed-result latency_ms s)
        ∙ ap (λ o. o ∷ rest) (sym (alone-result elapsed s st))
        ∙ ap (λ rs. single ∷ rs) (same_results elapsed st latency_ms states)

    -- With a booster that scores each row by itself, a batch gives the predictions that the states would get one by one, but for the times, and
    -- counts each state once, as predicted or as skipped.
    pub predict_batch-predict :
        (elapsed elapsed_alone : ℕ) (states : List MatchState) (st st_alone : LatencyStats)
        → Runs
            (λ r.
              (map (λ p. some (untimed p)) r.0
                ≡ map (λ s. untimed_of (predict engine elapsed_alone s none false st_alone)) states)
              × (r.1.total_predictions ≡ st.total_predictions + count is_scoreable states)
              × (r.1.skipped ≡ st.skipped + count (λ s. not (is_scoreable s)) states))
            (predict_batch engine elapsed states st)
    unfolding predict_batch
    predict_batch-predict elapsed elapsed_alone states st st_alone =
        let scoreable = scoreable_from 0 states in
        let latency_ms : Rational = record { num = pos elapsed; den = 1_000 * length scoreable } in
        let st' : LatencyStats = record st {
          skipped = st.skipped + count (λ s. not (is_scoreable s)) states;
        } in
        let wanted : List (Prediction Number) × LatencyStats → Type 0 = λ r.
          (map (λ p. some (untimed p)) r.0
            ≡ map (λ s. untimed_of (predict engine elapsed_alone s none false st_alone)) states)
          × (r.1.total_predictions ≡ st.total_predictions + count is_scoreable states)
          × (r.1.skipped ≡ st.skipped + count (λ s. not (is_scoreable s)) states) in
        let scores =
          calibrated-map (map (λ e. extract true e.1 none) scoreable)
          ∙ map-map (λ e. extract true e.1 none) point scoreable in
        let all =
          fill_results-Filled latency_ms states [] (skipped_results engine states) 0 st' refl
            refl in
        subst
          (λ ps. Runs wanted (
            finish engine
              (fill_results engine latency_ms scoreable ps (skipped_results engine states, st'))))
          (sym scores)
          (Runs-finish
            (Filled (map (λ s. some (result latency_ms s)) states) (count is_scoreable states) st')
            wanted _ all
            λ r h. (
              ap (λ rs. map (λ p. some (untimed p)) (present rs)) h.filled
                  ∙ ap (map (λ p. some (untimed p))) (present-map (result latency_ms) states)
                  ∙ same_results elapsed_alone st_alone latency_ms states,
              h.counted,
              h.same_skipped,
            ))
