-- ===== src/Drift/Examples.antt =====
-- A fixed-point arithmetic in millionths, a detector, and an instance of the theorem about it.
use apex_pulse.Prelude.{ℕ, ◌-◌, ◌*◌, ◌/◌, max, ◌≡◌, not, ◌&&◌, List, [], ◌∷◌, length, sum_of, ltb}
use apex_pulse.Prelude.Text.{codes}
use apex_pulse.Prelude.Dict.{Dict}
use apex_pulse.Drift.{Numeric, DriftDetector, should_retrain, is_fitted, sample_count, detect}
use apex_pulse.Drift.Verdict.{any_alarm, detect_retrains}

abbrev micro : ℕ
micro = 1_000_000

abbrev fixed : Numeric ℕ
fixed = record {
  zero_value = 0;
  below = ltb;
  quotient = λ n m. n * micro / m;
  minus = λ a b. a - b;
  times = λ a b. a * b;
  over = λ a b. a * micro / b;
  larger = max;
  log = λ a. a - micro;
  lowest = 0;
  highest = micro * micro;
  total = λ xs. sum_of (λ x. x) xs;
  mean = λ xs. sum_of (λ x. x) xs / length xs;
  std = λ xs. micro;
  unique = λ xs. xs;
  quantiles = λ n xs. xs;
  histogram = λ xs edges. length xs ∷ [];
}

abbrev trained : DriftDetector ℕ
trained = record { reference = (codes "score_ct", 1 ∷ 2 ∷ 3 ∷ []) ∷ []; min_samples = 2 }

abbrev shifted : Dict (List ℕ)
shifted = (codes "score_ct", 7 ∷ 7 ∷ []) ∷ []

detect_retrains_example : should_retrain (detect fixed trained shifted) ≡ (
    is_fitted trained
    && (not (ltb (sample_count shifted) 2) && any_alarm fixed trained.reference shifted))
detect_retrains_example = detect_retrains fixed trained shifted
