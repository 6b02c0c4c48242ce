-- ===== src/Calibration.antt =====
-- `assess_calibration` of src/apexpulse/ml/calibration.py. The floating-point numbers are a parameter,
-- with the functions of NumPy that are called; a sample is a prediction with its outcome.
pub mod Partition
mod Examples
use apex_pulse.Prelude.{
  ℕ, zero, suc, ◌+◌, ◌-◌, ◌≡◌, Bool, true, false, not, ◌&&◌, List, [], ◌∷◌, ◌++◌, map, length,
  filter, ◌==◌, if◌then◌else◌,
}

-- The numbers; `edge n i` is the item `i` of `linspace(0.0, 1.0, n + 1)`.
pub record Scale (Number : Type 0) : Type 0 where
  pub zero_value : Number
  pub one : Number
  pub leb : Number → Number → Bool
  pub below : Number → Number → Bool
  pub edge : ℕ → ℕ → Number
  pub mean : List Number → Number
  pub minus : Number → Number → Number
  pub plus : Number → Number → Number
  pub times : Number → Number → Number
  pub abs : Number → Number
  pub larger : Number → Number → Number
  pub quotient : ℕ → ℕ → Number
  pub twentieth : Number

pub record Sample (Number : Type 0) : Type 0 where
  pub predicted : Number
  pub truth : Number

pub record CalibrationBin (Number : Type 0) : Type 0 where
  pub lower : Number
  pub upper : Number
  pub count : ℕ
  pub mean_predicted : Number
  pub observed_rate : Number

pub record CalibrationReport (Number : Type 0) : Type 0 where
  pub bins : List (CalibrationBin Number)
  pub expected_calibration_error : Number
  pub max_calibration_error : Number

module _ {Number : Type 0} (scale : Scale Number) where
  unfoldable pub error : CalibrationBin Number → Number
  error b = scale.minus b.mean_predicted b.observed_rate

  unfoldable pub is_well_calibrated : CalibrationReport Number → Bool
  is_well_calibrated r = scale.below r.expected_calibration_error scale.twentieth

  -- The last band is closed on the right.
  abbrev pub in_bin : ℕ → ℕ → Number → Bool
  in_bin bin_count index p =
      scale.leb (scale.edge bin_count index) p
      && (if index + 1 == bin_count
          then scale.leb p (scale.edge bin_count (index + 1))
          else scale.below p (scale.edge bin_count (index + 1)))

  -- The turn of the loop for a band with samples.
  abbrev pub add_bin :
      ℕ → ℕ → ℕ → List (Sample Number) → CalibrationReport Number → CalibrationReport Number
  add_bin bin_count total index [] r = r
  add_bin bin_count total index (s ∷ inside) r =
      let n = length (s ∷ inside) in
      let mean_predicted = scale.mean (map (λ x. x.predicted) (s ∷ inside)) in
      let observed = scale.mean (map (λ x. x.truth) (s ∷ inside)) in
      let gap = scale.abs (scale.minus mean_predicted observed) in
      record {
        bins =
            r.bins
            ++ record {
              lower = scale.edge bin_count index;
              upper = scale.edge bin_count (index + 1);
              count = n;
              mean_predicted = mean_predicted;
              observed_rate = observed;
            }
              ∷ [];
        expected_calibration_error =
            scale.plus r.expected_calibration_error (scale.times (scale.quotient n total) gap);
        max_calibration_error = scale.larger r.max_calibration_error gap;
      }

  -- The loop, with `left` bands to go from `index` on.
  unfoldable pub assess_from :
      ℕ → List (Sample Number) → ℕ → ℕ → CalibrationReport Number → CalibrationReport Number
  assess_from bin_count samples zero index r = r
  assess_from bin_count samples (suc left) index r =
      assess_from bin_count samples left (index + 1) (
        add_bin bin_count (length samples) index
          (filter (λ s. in_bin bin_count index s.predicted) samples) r)

  unfoldable pub assess_calibration : ℕ → List (Sample Number) → CalibrationReport Number
  assess_calibration bin_count samples = assess_from bin_count samples bin_count 0 (record {
    bins = [];
    expected_calibration_error = scale.zero_value;
    max_calibration_error = scale.zero_value;
  })
