-- ===== src/Inference/Engine.antt =====
-- `InferenceEngine` of src/apexpulse/inference/engine.py. The booster with the rounding of its rows
-- is a parameter, and so is the time that a call takes, in microseconds.
pub mod Batch
mod Examples
use apex_pulse.Prelude.{
  ℕ, zero, suc, ◌+◌, ◌-◌, ◌*◌, ◌/◌, ◌≡◌, min, Bool, true, false, not, Option, none, some, List, [],
  ◌∷◌, ◌++◌, map, length, drop, get_elem?, is_empty, count, sum_of, ltb, leb, ◌==◌, if◌then◌else◌,
}
use apex_pulse.Prelude.Int.{ℤ, pos, leb_ℤ}
use apex_pulse.Prelude.Text.{Text, text_eq}
use apex_pulse.Prelude.Dict.{Dict}
use apex_pulse.Prelude.Rational.{Rational, whole, times}
use apex_pulse.Schema.Models.{MatchState}
use apex_pulse.Stream.Window.{WindowedMetrics}
use apex_pulse.Features.Extractor.{extract, as_dict, is_scoreable}
use apex_pulse.Inference.Calibrator.{ProbabilityCalibrator, apply}

abbrev pub latency_window : ℕ
latency_window = 1_000

pub record Prediction (Number : Type 0) : Type 0 where
  pub match_id : Text
  pub round_number : ℕ
  pub ct_win_probability : Number
  pub latency_ms : Rational
  pub scored : Bool
  pub features : Dict Rational

pub record LatencyStats : Type 0 where
  pub samples : List Rational
  pub total_predictions : ℕ
  pub skipped : ℕ

-- `deque.append` at the window length drops the oldest sample.
unfoldable pub record_latency : Rational → LatencyStats → LatencyStats
record_latency latency_ms s =
    let samples = s.samples ++ latency_ms ∷ [] in
    record s {
      samples = drop (length samples - latency_window) samples;
      total_predictions = s.total_predictions + 1;
    }

abbrev insert_latency : Rational → List Rational → List Rational
insert_latency x [] = x ∷ []
insert_latency x (y ∷ ys) =
    if leb_ℤ (times x.num y.den) (times y.num x.den) then x ∷ y ∷ ys else y ∷ insert_latency x ys

unfoldable pub sort_latencies : List Rational → List Rational
sort_latencies [] = []
sort_latencies (x ∷ xs) = insert_latency x (sort_latencies xs)

-- `percentile` at the fraction `num / den`; `none` would be an index out of range.
unfoldable pub percentile : ℕ → ℕ → LatencyStats → Option Rational
percentile num den s =
    let ordered = sort_latencies s.samples in
    if is_empty s.samples
    then some (whole (pos 0))
    else get_elem? ordered (min (length ordered - 1) (num * length ordered / den))

-- What `__init__` makes of the trees that are recorded and of the cap; `none` is a `ValueError`.
unfoldable pub trees_used : Option ℕ → Option ℕ → Option (Option ℕ)
trees_used none none = some none
trees_used (some best_iteration) none = some (some (best_iteration + 1))
trees_used none (some max_trees) = if ltb max_trees 1 then none else some (some max_trees)
trees_used (some best_iteration) (some max_trees) =
    if ltb max_trees 1 then none else some (some (min (best_iteration + 1) max_trees))

-- What the engine calls: the booster over a matrix, with the number of trees if it is limited, the
-- interpolation, and the numbers.
pub record Booster (Number : Type 0) : Type 0 where
  pub inplace_predict : Option ℕ → List (List Rational) → List Number
  pub interp : List Number → List Number → Number → Number
  pub half : Number

-- A booster scores each row by itself.
pub record IsBooster {Number : Type 0} (booster : Booster Number) : Type 0 where
  pub score : Option ℕ → List Rational → Number
  pub rows :
      (trees : Option ℕ) (matrix : List (List Rational))
      → booster.inplace_predict trees matrix ≡ map (score trees) matrix

pub record InferenceEngine (Number : Type 0) : Type 0 where
  pub booster : Booster Number
  pub calibrator : ProbabilityCalibrator Number
  pub trees : Option ℕ

-- `results[index] = p`
abbrev pub set_at {ℓ} : {A : Type ℓ} → ℕ → A → List A → List A
set_at i p [] = []
set_at zero p (x ∷ xs) = p ∷ xs
set_at (suc i) p (x ∷ xs) = x ∷ set_at i p xs

-- `[result for result in results if result is not None]`
abbrev pub present {ℓ} : {A : Type ℓ} → List (Option A) → List A
present [] = []
present (none ∷ xs) = present xs
present (some x ∷ xs) = x ∷ present xs

-- `[(index, state) for index, state in enumerate(states) if is_scoreable(state)]`
unfoldable pub scoreable_from : ℕ → List MatchState → List (ℕ × MatchState)
scoreable_from i [] = []
scoreable_from i (s ∷ states) =
    if is_scoreable s then (i, s) ∷ scoreable_from (i + 1) states else scoreable_from (i + 1) states

module _ {Number : Type 0} (engine : InferenceEngine Number) where
  -- `calibrator.apply(_predict_raw(matrix))`
  abbrev pub calibrated : List (List Rational) → List Number
  calibrated matrix =
      apply engine.booster.interp engine.calibrator
        (engine.booster.inplace_predict engine.trees matrix)

  abbrev pub skipped_prediction : Rational → MatchState → Prediction Number
  skipped_prediction latency_ms s = record {
    match_id = s.match_id;
    round_number = s.round_state.round_number;
    ct_win_probability = engine.booster.half;
    latency_ms = latency_ms;
    scored = false;
    features = [];
  }

  abbrev pub scored_prediction : Rational → Dict Rational → MatchState → Number → Prediction Number
  scored_prediction latency_ms features s p = record {
    match_id = s.match_id;
    round_number = s.round_state.round_number;
    ct_win_probability = p;
    latency_ms = latency_ms;
    scored = true;
    features = features;
  }

  abbrev scored_first :
      Rational
      → Dict Rational
      → MatchState
      → LatencyStats
      → List Number
      → Option (Prediction Number × LatencyStats)
  scored_first latency_ms features s stats [] = none
  scored_first latency_ms features s stats (p ∷ _) =
      some (scored_prediction latency_ms features s p, record_latency latency_ms stats)

  -- `predict`; `none` would be a booster that returns no value for the row.
  unfoldable pub predict :
      ℕ
      → MatchState
      → Option WindowedMetrics
      → Bool
      → LatencyStats
      → Option (Prediction Number × LatencyStats)
  predict elapsed s metrics include_features stats =
      let latency_ms : Rational = record { num = pos elapsed; den = 1_000 } in
      let values = extract true s metrics in
      if is_scoreable s
      then scored_first latency_ms (if include_features then as_dict values else []) s stats
          (calibrated (values ∷ []))
      else some (skipped_prediction latency_ms s, record stats { skipped = stats.skipped + 1 })

  -- The first loop of `predict_batch`, over a list of `None`.
  unfoldable pub skipped_results : List MatchState → List (Option (Prediction Number))
  skipped_results [] = []
  skipped_results (s ∷ states) =
      (if is_scoreable s then none else some (skipped_prediction (whole (pos 0)) s))
      ∷ skipped_results states

  -- The loop over the scored states; `none` would be a booster that returns too few values.
  unfoldable pub fill_results :
      Rational
      → List (ℕ × MatchState)
      → List Number
      → List (Option (Prediction Number)) × LatencyStats
      → Option (List (Option (Prediction Number)) × LatencyStats)
  fill_results latency_ms [] _ r = some r
  fill_results latency_ms (_ ∷ _) [] r = none
  fill_results latency_ms ((i, s) ∷ rest) (p ∷ ps) (results, stats) =
      fill_results latency_ms rest ps (
        set_at i (some (scored_prediction latency_ms [] s p)) results,
        record_latency latency_ms stats,
      )

  abbrev pub finish :
      Option (List (Option (Prediction Number)) × LatencyStats)
      → Option (List (Prediction Number) × LatencyStats)
  finish none = none
  finish (some (results, stats)) = some (present results, stats)

  -- `predict_batch`; an empty batch has nothing to skip or score.
  unfoldable pub predict_batch :
      ℕ → List MatchState → LatencyStats → Option (List (Prediction Number) × LatencyStats)
  predict_batch elapsed states stats =
      let scoreable = scoreable_from 0 states in
      let latency_ms : Rational = record { num = pos elapsed; den = 1_000 * length scoreable } in
      finish (
        fill_results latency_ms scoreable (calibrated (map (λ e. extract true e.1 none) scoreable))
          (
            skipped_results states,
            record stats { skipped = stats.skipped + count (λ s. not (is_scoreable s)) states },
          ))
